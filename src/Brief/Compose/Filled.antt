-- ===== src/Brief/Compose/Filled.antt =====
-- internal/brief/render.go, `compose`: what holds when the filling ends.
use dira.Prelude.{
  ℕ, ◌≡◌, refl, ap, sym, ◌∙◌, inl, inr, true, false, Bool, List, [], ◌∷◌, Str, Option-cases, arith,
  ◌&&◌, if_both, Result, length, none,
}
use dira.Ledger.Entry.{Entry}
use dira.Brief.{Times, Options, LoadedSection}
use dira.Brief.Paint.{preamble}
use dira.Brief.Paint.Ends.{preamble-EndsLine}
use dira.Brief.Fill.{Fill, add, add_blocks, add_sections}
use dira.Brief.Fill.Steps.{
  Preserves, add-some, Held, add_blocks-Inv, add_sections-Held, fill_chain-Inv,
}
use dira.Brief.Compose.{filled, started, chained, fill_local}

add_blocks-sections :
    (max : ℕ) (blocks : List Str) (m : Fill) → (add_blocks max blocks m).1.sections ≡ m.sections
add_blocks-sections max [] m = refl
add_blocks-sections max (block ∷ blocks) m = elim (Option-cases (add max block none m)) [
  | inl e ↦ rw (e, add_blocks) refl
  | inr (n, e) ↦
      rw (e, add_blocks)
        (add_blocks-sections max blocks n
          ∙ sym (ap (λ (x : Fill). x.sections) ((add-some max block none m n e).0)))
]

module _ (t : Times) (W : Type 0) (entry : Str → W → Result Str Entry × W)
    (is_cancelled : W → Bool × W) (o : Options t W) (Inv : Fill → Type 0)
    (keeps : Preserves o.max_tokens Inv) where
  chained-Inv :
      (go_on : Bool) (m : Fill) (w : W)
      → Inv m
      → Inv ((chained t W entry is_cancelled o go_on m w).0)
  chained-Inv go_on m w h =
      if_both (λ (r : Fill × W). Inv (r.0)) (go_on && o.chain)
        (fill_chain-Inv t W entry is_cancelled o Inv keeps o.chain_source m w h) h

  fill_local-Inv :
      (loaded : List (LoadedSection t W)) (r : Bool × Fill) (w : W)
      → length loaded ≡ length (r.1.sections)
      → Inv (r.1)
      → Inv ((fill_local t W entry is_cancelled o loaded r w).0)
  unfolding Held
  fill_local-Inv loaded (false, m) w l h = h
  fill_local-Inv loaded (true, m) w l h =
      let added = add_sections t W entry is_cancelled o 0 loaded m w in
      let held =
        add_sections-Held t W entry is_cancelled o Inv keeps 0 (length m.sections) loaded m w
          (omega (arith, l)) (h, refl) in
      chained-Inv (added.0) (added.1) (added.2) (held.0)

  length-started :
      (loaded : List (LoadedSection t W))
      → length loaded ≡ length ((started t W entry is_cancelled o loaded).sections)
  length-started [] = refl
  length-started (l ∷ ls) = omega (arith, length-started ls)

  pub filled-Inv :
      (loaded : List (LoadedSection t W)) (w : W)
      → Inv (started t W entry is_cancelled o loaded)
      → Inv ((filled t W entry is_cancelled o loaded w).0)
  unfolding filled
  filled-Inv loaded w h =
      let blocks = preamble t W entry o in
      let begun = started t W entry is_cancelled o loaded in
      fill_local-Inv loaded (add_blocks o.max_tokens blocks begun) w
        (length-started loaded ∙ ap length (sym (add_blocks-sections o.max_tokens blocks begun)))
        (add_blocks-Inv o.max_tokens Inv keeps blocks begun (preamble-EndsLine t W entry o) h)
