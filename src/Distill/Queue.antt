-- ===== src/Distill/Queue.antt =====
-- internal/distill/queue.go: the staged entries of a ledger, and which of them await a human.
use dira.Prelude.{
  Bool, true, false, not, ◌&&◌, List, [], ◌∷◌, Option, none, some, Str, is_nil, if◌then◌else◌,
  keep_if, Result, ok, err,
}
use dira.Ledger.Entry.{Entry, Source, Tier, tier_eq}
use dira.Ledger.Store.{Store, StoreError, EntryInfo, not_found}
use dira.Distill.Dispose.{is_staged}

pub data Status : Type 0 where
  awaiting pending_extraction : Status

pub record Item : Type 0 where
  pub entry : Entry
  pub status : Status

-- A warning is the id of the entry that could not be read, and why; Go prints it on one line.
pub record Queue : Type 0 where
  pub items : List Item
  pub warnings : List (Str × StoreError)

abbrev pub is_no_tier : Tier → Bool
is_no_tier t = tier_eq t (Tier.other_tier [])

-- A source of a tier above `regex` counts as confirmed, too.
abbrev pub is_promoted : Option Source → Bool
is_promoted none = false
is_promoted (some src) = not (is_no_tier src.tier) && not (tier_eq src.tier Tier.regex)

unfoldable pub status_of : Entry → Status
status_of e =
    if not (is_nil e.confirmed_by)
    then pending_extraction
    else if is_promoted e.source
    then pending_extraction
    else awaiting

abbrev pub is_awaiting : Status → Bool
is_awaiting awaiting = true
is_awaiting pending_extraction = false

-- `Queue.Awaiting` and `Queue.PendingExtraction`
abbrev pub awaiting_items : Queue → List Item
awaiting_items q = keep_if (λ (i : Item). is_awaiting i.status) q.items

abbrev pub pending_items : Queue → List Item
pending_items q = keep_if (λ (i : Item). not (is_awaiting i.status)) q.items

-- One round of the loop of `Staged`: the answer of the store goes in front of what is read later.
unfoldable pub queue_entry : Str → Result StoreError Entry → Queue → Queue
queue_entry id (err not_found) q = q
queue_entry id (err x) q = record q { warnings = (id, x) ∷ q.warnings }
queue_entry id (ok e) q =
    if not (is_staged e.state)
    then q
    else record q { items = record { entry = e; status = status_of e } ∷ q.items }

abbrev pub no_items : Queue
no_items = record { items = []; warnings = [] }

module _ (s : Store) where
  unfoldable pub read_queue : List EntryInfo → s.World → Queue × s.World
  unfolding queue_entry
  read_queue [] w = (no_items, w)
  read_queue (info ∷ infos) w =
      let (read, w1) = s.get info.id w in
      let (rest, w2) = read_queue infos w1 in (queue_entry info.id read rest, w2)

  -- `Staged`
  unfoldable pub staged_queue : s.World → Result StoreError Queue × s.World
  unfolding read_queue
  staged_queue w =
      let (listed, w1) = s.list w in
      elim listed [
        | err x ↦ (err x, w1)
        | ok infos ↦ let (q, w2) = read_queue infos w1 in (ok q, w2)
      ]
