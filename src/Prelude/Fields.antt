-- ===== src/Prelude/Fields.antt =====
-- What `strings.Fields` finds: words without a separator, also where texts are put together.
use Prim.Native.Nat.{ℕ}
use mathlib.Core.Path.{◌≡◌, refl, sym}
use mathlib.Core.Logic.{inl, inr}
use mathlib.Core.Bool.{Bool, true, false}
use mathlib.Core.List.{List, [], ◌∷◌, ◌++◌, append_assoc, append-nil}
use dira.Prelude.Tests.{Bool-cases}
use dira.Prelude.Lists.{All, is_nil, All-append}
use dira.Prelude.Text.{Str, flush, fields_loop, fields_func, fields, is_space}

-- A part that a cut leaves: not empty, and without a separator.
unfoldable pub IsWord : (ℕ → Bool) → Str → Type 0
IsWord sep w = (is_nil w ≡ false) × All (λ c. sep c ≡ false) w

module _ (sep : ℕ → Bool) where
  flush_append : (cur : Str) (xs ys : List Str) → flush cur xs ++ ys ≡ flush cur (xs ++ ys)
  flush_append [] xs ys = refl
  flush_append (c ∷ cur) xs ys = refl

  step_cut :
      (cur : Str) (c : ℕ) (s : Str)
      → sep c ≡ true
      → fields_loop sep cur (c ∷ s) ≡ flush cur (fields_loop sep [] s)
  unfolding fields_loop
  step_cut cur c s e = rw (e, fields_loop)

  step_keep :
      (cur : Str) (c : ℕ) (s : Str)
      → sep c ≡ false
      → fields_loop sep cur (c ∷ s) ≡ fields_loop sep (cur ++ c ∷ []) s
  unfolding fields_loop
  step_keep cur c s e = rw (e, fields_loop)

  pub fields_loop-append :
      (cur a : Str) (c : ℕ) (b : Str)
      → sep c ≡ true
      → fields_loop sep cur (a ++ c ∷ b) ≡ fields_loop sep cur a ++ fields_loop sep [] b
  unfolding fields_loop
  fields_loop-append cur [] c b h = rw (step_cut cur c b h, flush_append cur [])
  fields_loop-append cur (d ∷ a) c b h = elim (Bool-cases (sep d)) [
    | inl e ↦
        rw (step_cut cur d (a ++ c ∷ b) e, step_cut cur d a e, fields_loop-append [] a c b h)
          (sym (flush_append cur (fields_loop sep [] a) (fields_loop sep [] b)))
    | inr e ↦
        rw (step_keep cur d (a ++ c ∷ b) e, step_keep cur d a e)
          (fields_loop-append (cur ++ d ∷ []) a c b h)
  ]

  pub fields_loop-word :
      (cur w : Str) → All (λ c. sep c ≡ false) w → fields_loop sep cur w ≡ flush (cur ++ w) []
  unfolding fields_loop
  fields_loop-word cur [] h = rw append-nil
  fields_loop-word cur (c ∷ w) (h, hs) =
      rw (step_keep cur c w h, fields_loop-word (cur ++ c ∷ []) w hs, append_assoc)

  flush-IsWord :
      (cur : Str) (xs : List Str)
      → All (λ c. sep c ≡ false) cur
      → All (IsWord sep) xs
      → All (IsWord sep) (flush cur xs)
  unfolding IsWord
  flush-IsWord [] xs h k = k
  flush-IsWord (c ∷ cur) xs h k = ((refl, h), k)

  pub fields_loop-IsWord :
      (cur s : Str) → All (λ c. sep c ≡ false) cur → All (IsWord sep) (fields_loop sep cur s)
  unfolding fields_loop IsWord
  fields_loop-IsWord cur [] h = flush-IsWord cur [] h tt
  fields_loop-IsWord cur (c ∷ s) h = elim (Bool-cases (sep c)) [
    | inl e ↦ rw (step_cut cur c s e) (flush-IsWord cur _ h (fields_loop-IsWord [] s tt))
    | inr e ↦
        rw (step_keep cur c s e)
          (fields_loop-IsWord (cur ++ c ∷ []) s (All-append _ cur (c ∷ []) h (e, tt)))
  ]

pub fields-append :
    (a : Str) (c : ℕ) (b : Str) → is_space c ≡ true → fields (a ++ c ∷ b) ≡ fields a ++ fields b
unfolding fields fields_func
fields-append a c b h = fields_loop-append is_space [] a c b h

pub fields-word : (w : Str) → IsWord is_space w → fields w ≡ w ∷ []
unfolding fields fields_func IsWord
fields-word (c ∷ w) (_, h) = fields_loop-word is_space [] (c ∷ w) h
fields-word [] (h, _) = cc

pub fields-IsWord : (s : Str) → All (IsWord is_space) (fields s)
unfolding fields fields_func
fields-IsWord s = fields_loop-IsWord is_space [] s tt
