-- ===== src/Brief/Compose/Named.antt =====
-- internal/brief/render.go, `compose`: that what is left out is named.
use dira.Prelude.{ℕ, false, false, ◌≡◌, ◌≤◌, ◌<◌, Bool, List, [], Str, All, Result}
use dira.Ledger.Entry.{Entry}
use dira.Brief.{Times, Options}
use dira.Brief.Tokens.{tokens}
use dira.Brief.Fill.{Fill, SectionResult}
use dira.Brief.Compose.Notice.{AreMentioned}
use dira.Brief.Compose.{footer}

-- Each section has all its entries; or the text at the end mentions what each section lacks; or nothing is
-- written at all, where a notice that mentions it is over the ceiling.
pub data Names (max : ℕ) (notice : List SectionResult → Str) : Str → Fill → Type 0 where
  nothing_omitted : {m : Fill} → All (λ s. s.total ≤ s.kept) m.sections → Names max notice [] m
  named : {tail : Str} {m : Fill} → AreMentioned tail m.sections → Names max notice tail m
  nothing_written :
      {m : Fill}
      → m.written ≡ []
      → AreMentioned (notice m.sections) m.sections
      → max < tokens (notice m.sections)
      → Names max notice [] m

module _ (t : Times) (W : Type 0) (entry : Str → W → Result Str Entry × W)
    (is_cancelled : W → Bool × W) (o : Options t W) where
  IsNamed : Str × Fill → Type 0
  IsNamed r = Names o.max_tokens (footer t W entry is_cancelled o) r.0 r.1
