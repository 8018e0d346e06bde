-- ===== src/Ledger/Entry.antt =====
-- ledger/entry.go: the vocabularies and the entry. A vocabulary is an open string type in Go: a
-- constructor for each word of it, and `other` for any text that is none of them.
use dira.Prelude.{
  ◌≡◌, ◌↔◌, Bool, true, false, List, [], ◌∷◌, Option, arith, Str, codes, str_eq, str_eq_iff,
}

pub data Kind : Type 0 where
  intent decision question constraint note : Kind
  other_kind : Str → Kind

pub data State : Type 0 where
  active achieved abandoned accepted rejected superseded opened answered staged : State
  other_state : Str → State

pub data EdgeType : Type 0 where
  supersedes derives_from informs blocks realized_by : EdgeType
  other_edge : Str → EdgeType

pub data Hook : Type 0 where
  session_start stop pre_compact manual import_hook kazi_disposition : Hook
  other_hook : Str → Hook

pub data Tier : Type 0 where
  regex semantic human : Tier
  other_tier : Str → Tier

pub record Edge : Type 0 where
  pub type : EdgeType
  pub to : Str
  pub note : Str

pub record Alternative : Type 0 where
  pub option : Str
  pub why_not : Str
  pub revisit_if : Str

-- The empty hook and the empty tier are `other_hook []` and `other_tier []`.
pub record Source : Type 0 where
  pub hook : Hook
  pub session : Str
  pub excerpt : Str
  pub tier : Tier

-- `Params` is free-form, and no code that is modelled reads it.
pub record AppliesWhen : Type 0 where
  pub action : Str

-- `style`, which only the codec reads, is left out.
pub record Entry : Type 0 where
  pub id : Str
  pub kind : Kind
  pub title : Str
  pub state : State
  pub created : Str
  pub updated : Str
  pub tags : List Str
  pub edges : List Edge
  pub alternatives : List Alternative
  pub source : Option Source
  pub confirmed_by : Str
  pub adr : Str
  pub private : Bool
  pub applies_when : Option AppliesWhen
  pub body : Str
  pub version : Str

-- The word of a state.
abbrev pub state_text : State → Str
state_text active = codes "active"
state_text achieved = codes "achieved"
state_text abandoned = codes "abandoned"
state_text accepted = codes "accepted"
state_text rejected = codes "rejected"
state_text superseded = codes "superseded"
state_text opened = codes "open"
state_text answered = codes "answered"
state_text staged = codes "staged"
state_text (other_state s) = s

-- `Kind.States`: the states that a kind allows.
unfoldable pub states : Kind → List State
states intent = active ∷ achieved ∷ abandoned ∷ []
states decision = accepted ∷ rejected ∷ superseded ∷ staged ∷ []
states question = opened ∷ answered ∷ []
states constraint = active ∷ superseded ∷ []
states note = active ∷ abandoned ∷ []
states (other_kind _) = []

-- `Kind.Prefix`; a kind outside the vocabulary has none.
unfoldable pub prefix : Kind → Str
prefix intent = codes "int"
prefix decision = codes "dec"
prefix question = codes "qst"
prefix constraint = codes "cst"
prefix note = codes "note"
prefix (other_kind _) = []

abbrev pub kinds : List Kind
kinds = intent ∷ decision ∷ question ∷ constraint ∷ note ∷ []

abbrev pub edge_types : List EdgeType
edge_types = supersedes ∷ derives_from ∷ informs ∷ blocks ∷ realized_by ∷ []

abbrev pub hooks : List Hook
hooks = session_start ∷ stop ∷ pre_compact ∷ manual ∷ import_hook ∷ kazi_disposition ∷ []

abbrev pub tiers : List Tier
tiers = regex ∷ semantic ∷ human ∷ []

-- Equality of the words: Go compares the strings.
abbrev pub state_eq : State → State → Bool
state_eq active active = true
state_eq achieved achieved = true
state_eq abandoned abandoned = true
state_eq accepted accepted = true
state_eq rejected rejected = true
state_eq superseded superseded = true
state_eq opened opened = true
state_eq answered answered = true
state_eq staged staged = true
state_eq (other_state s) (other_state t) = str_eq s t
state_eq _ _ = false

abbrev pub edge_type_eq : EdgeType → EdgeType → Bool
edge_type_eq supersedes supersedes = true
edge_type_eq derives_from derives_from = true
edge_type_eq informs informs = true
edge_type_eq blocks blocks = true
edge_type_eq realized_by realized_by = true
edge_type_eq (other_edge s) (other_edge t) = str_eq s t
edge_type_eq _ _ = false

abbrev pub hook_eq : Hook → Hook → Bool
hook_eq session_start session_start = true
hook_eq stop stop = true
hook_eq pre_compact pre_compact = true
hook_eq manual manual = true
hook_eq import_hook import_hook = true
hook_eq kazi_disposition kazi_disposition = true
hook_eq (other_hook s) (other_hook t) = str_eq s t
hook_eq _ _ = false

abbrev pub tier_eq : Tier → Tier → Bool
tier_eq regex regex = true
tier_eq semantic semantic = true
tier_eq human human = true
tier_eq (other_tier s) (other_tier t) = str_eq s t
tier_eq _ _ = false

pub state_eq_iff : (a b : State) → (state_eq a b ≡ true) ↔ (a ≡ b)
state_eq_iff (other_state s) (other_state t) = ground (arith, str_eq_iff s t)
state_eq_iff active b = ground arith
state_eq_iff _ b = ground arith

pub edge_type_eq_iff : (a b : EdgeType) → (edge_type_eq a b ≡ true) ↔ (a ≡ b)
edge_type_eq_iff (other_edge s) (other_edge t) = ground (arith, str_eq_iff s t)
edge_type_eq_iff supersedes b = ground arith
edge_type_eq_iff _ b = ground arith

pub hook_eq_iff : (a b : Hook) → (hook_eq a b ≡ true) ↔ (a ≡ b)
hook_eq_iff (other_hook s) (other_hook t) = ground (arith, str_eq_iff s t)
hook_eq_iff stop b = ground arith
hook_eq_iff _ b = ground arith

pub tier_eq_iff : (a b : Tier) → (tier_eq a b ≡ true) ↔ (a ≡ b)
tier_eq_iff (other_tier s) (other_tier t) = ground (arith, str_eq_iff s t)
tier_eq_iff regex b = ground arith
tier_eq_iff _ b = ground arith
