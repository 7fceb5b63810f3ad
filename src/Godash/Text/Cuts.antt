-- ===== src/Godash/Text/Cuts.antt =====
-- Splitting, joining and replacing in texts.
use rlnc_streaming.Base.{
  ℕ, zero, suc, ◌-◌, ◌≡◌, refl, ap, ◌∙◌, ◌≢◌, List, [], ◌∷◌, ◌++◌, true, false, ◌==◌, ==_ne,
  ==_refl, ==_iff, Bool-cases, inl, inr, arith, length,
}
use rlnc_streaming.Godash.Text.{
  Bytes, starts_with, contains, replace_from, replace_all, split, join,
}

module _ {ℓ κ} {A : Type ℓ} (P : A → Type κ) where
  abbrev pub All : List A → Type κ
  All [] = Unit
  All (x ∷ xs) = P x × All xs

  pub All-append : (xs ys : List A) → All xs → All ys → All (xs ++ ys)
  All-append [] ys h k = k
  All-append (x ∷ xs) ys (px, h) k = (px, All-append xs ys h k)

pub All-weaken {ℓ κ κ'} :
    {A : Type ℓ} {P : A → Type κ} {Q : A → Type κ'} (xs : List A)
    → ((x : A) → P x → Q x)
    → All P xs
    → All Q xs
All-weaken [] weaken h = tt
All-weaken (x ∷ xs) weaken (px, h) = (weaken x px, All-weaken xs weaken h)

-- The byte is not in the text.
abbrev pub Lacks : ℕ → Bytes → Type 0
Lacks b = All (λ c. c ≢ b)

pub split-Lacks : (sep : ℕ) (s : Bytes) → Lacks sep s → split sep s ≡ s ∷ []
unfolding split
split-Lacks sep [] h = refl
split-Lacks sep (c ∷ s) (ne, h) = rw (==_ne c sep ne, split-Lacks sep s h) refl

-- A split cuts at the first separator.
pub split_first :
    (sep : ℕ) (s rest : Bytes) → Lacks sep s → split sep (s ++ sep ∷ rest) ≡ s ∷ split sep rest
unfolding split
split_first sep [] rest h = rw (==_refl sep) refl
split_first sep (c ∷ s) rest (ne, h) = rw (==_ne c sep ne, split_first sep s rest h) refl

-- Splitting a join gives the parts back, if there is a part and none holds the separator.
pub split-join :
    (sep : ℕ) (ps : List Bytes) → ps ≢ [] → All (Lacks sep) ps → split sep (join sep ps) ≡ ps
unfolding join
split-join sep [] some_part h = absurd (some_part refl)
split-join sep (p ∷ []) some_part (h, _) = split-Lacks sep p h
split-join sep (p ∷ q ∷ ps) some_part (h, hs) =
    split_first sep p _ h ∙ ap (◌∷◌ p) (split-join sep (q ∷ ps) (cc) hs)

-- A text that starts with another has no byte less than that one.
starts_with-Lacks : (b : ℕ) (part s : Bytes) → starts_with part s ≡ true → Lacks b s → Lacks b part
unfolding starts_with
starts_with-Lacks b [] s h lacks = tt
starts_with-Lacks b (p ∷ ps) [] h lacks = cc
starts_with-Lacks b (p ∷ ps) (c ∷ s) h (ne, lacks) = elim (Bool-cases (c == p)) [
  | inl e ↦ (λ q. ne ((==_iff c p).0 e ∙ q), starts_with-Lacks b ps s (rw e at h) lacks)
  | inr e ↦ cc (e)
]

-- A text that lacks a byte of `old` does not start with it.
starts_with_not : (b : ℕ) (old s : Bytes) → ¬ Lacks b old → Lacks b s → starts_with old s ≡ false
starts_with_not b old s has lacks = elim (Bool-cases (starts_with old s)) [
  | inl e ↦ absurd (has (starts_with-Lacks b old s e lacks))
  | inr e ↦ e
]

pub contains_not : (b : ℕ) (part s : Bytes) → ¬ Lacks b part → Lacks b s → contains part s ≡ false
unfolding contains
contains_not b part [] has lacks = starts_with_not b part [] has lacks
contains_not b part (c ∷ s) has (ne, lacks) =
    rw (starts_with_not b part (c ∷ s) has (ne, lacks)) (contains_not b part s has lacks)

-- The byte is in the text.
pub contains_byte : (b : ℕ) (s rest : Bytes) → contains (b ∷ []) (s ++ b ∷ rest) ≡ true
unfolding contains starts_with
contains_byte b [] rest = rw (==_refl b) refl
contains_byte b (c ∷ s) rest = elim (Bool-cases (c == b)) [
  | inl e ↦ rw e refl
  | inr e ↦ rw e (contains_byte b s rest)
]

replace_from-Lacks :
    (b : ℕ) (old new s : Bytes) → ¬ Lacks b old → Lacks b s → replace_from old new 0 s ≡ s
unfolding replace_from
replace_from-Lacks b old new [] has lacks = refl
replace_from-Lacks b old new (c ∷ s) has (ne, lacks) =
    rw (starts_with_not b old (c ∷ s) has (ne, lacks), replace_from)
      (ap (◌∷◌ c) (replace_from-Lacks b old new s has lacks))

-- Nothing is replaced in a text that lacks a byte of `old`.
pub replace_all-Lacks :
    (b : ℕ) (old new s : Bytes) → ¬ Lacks b old → Lacks b s → replace_all old new s ≡ s
unfolding replace_all
replace_all-Lacks b old new s has lacks = replace_from-Lacks b old new s has lacks

replace_from_nothing-Lacks :
    (b : ℕ) (old : Bytes) (skip : ℕ) (s : Bytes) → Lacks b s → Lacks b (replace_from old [] skip s)
unfolding replace_from
replace_from_nothing-Lacks b old skip [] lacks = tt
replace_from_nothing-Lacks b old (suc k) (c ∷ s) (ne, lacks) =
    replace_from_nothing-Lacks b old k s lacks
replace_from_nothing-Lacks b old zero (c ∷ s) (ne, lacks) =
    elim (Bool-cases (starts_with old (c ∷ s))) [
      | inl e ↦ rw (e, replace_from) (replace_from_nothing-Lacks b old (length old - 1) s lacks)
      | inr e ↦ rw (e, replace_from) (ne, replace_from_nothing-Lacks b old 0 s lacks)
    ]

-- What is left out adds no byte.
pub replace_all_nothing-Lacks : (b : ℕ) (old s : Bytes) → Lacks b s → Lacks b (replace_all old [] s)
unfolding replace_all
replace_all_nothing-Lacks b old s lacks = replace_from_nothing-Lacks b old 0 s lacks

starts_with_self : (part rest : Bytes) → starts_with part (part ++ rest) ≡ true
unfolding starts_with
starts_with_self [] rest = refl
starts_with_self (p ∷ ps) rest = rw (==_refl p) (starts_with_self ps rest)

skip-append :
    (old new ps rest : Bytes)
    → replace_from old new (length ps) (ps ++ rest) ≡ replace_from old new 0 rest
unfolding replace_from
skip-append old new [] rest = refl
skip-append old new (p ∷ ps) rest = skip-append old new ps rest

replace_at :
    (p : ℕ) (ps new rest : Bytes)
    → replace_from (p ∷ ps) new 0 ((p ∷ ps) ++ rest) ≡ new ++ replace_from (p ∷ ps) new 0 rest
unfolding replace_from
replace_at p ps new rest =
    rw (starts_with_self (p ∷ ps) rest, replace_from)
      (ap (λ t. new ++ t)
        (ap {A = ℕ} (λ k. replace_from (p ∷ ps) new k (ps ++ rest)) (omega arith)
          ∙ skip-append (p ∷ ps) new ps rest))

replace_past :
    (p : ℕ) (ps new s rest : Bytes)
    → Lacks p s
    → replace_from (p ∷ ps) new 0 (s ++ rest) ≡ s ++ replace_from (p ∷ ps) new 0 rest
unfolding replace_from starts_with
replace_past p ps new [] rest h = refl
replace_past p ps new (c ∷ s) rest (ne, h) =
    rw (==_ne c p ne, replace_from) (ap (◌∷◌ c) (replace_past p ps new s rest h))

-- The one occurrence of `old` behind bytes that are not its first is replaced.
pub replace_all_once :
    (p : ℕ) (ps new before after : Bytes)
    → Lacks p before
    → Lacks p after
    → replace_all (p ∷ ps) new (before ++ ((p ∷ ps) ++ after)) ≡ before ++ (new ++ after)
unfolding replace_all
replace_all_once p ps new before after h k =
    replace_past p ps new before _ h
    ∙ ap (λ t. before ++ t)
        (replace_at p ps new after
          ∙ ap (λ t. new ++ t) (replace_from-Lacks p (p ∷ ps) new after (λ l. l.0 refl) k))
