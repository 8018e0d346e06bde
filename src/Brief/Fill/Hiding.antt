-- ===== src/Brief/Fill/Hiding.antt =====
-- internal/brief/render.go, `activeIntents`: the intents of an ancestor whose private entries are hidden.
use dira.Prelude.{
  ◌≡◌, refl, ap, ◌∙◌, Bool, Bool-cases, inl, inr, List, [], ◌∷◌, map, Str, Option, none, some,
  Result, ok, err, sort, sort-map, str_lt, ◌&&◌, if◌then◌else◌,
}
use dira.Ledger.Entry.{Entry, active, state_eq}
use dira.Ledger.Store.{Store, StoreError, EntryInfo}
use dira.Chain.{Ancestor, Opened, WalkError}
use dira.Brief.{Times, Options}
use dira.Brief.Paint.Private.{hidden, redacted, ChainSource}
use dira.Brief.Fill.{read_intents, intents_listed, active_intents, is_intent, names_intent}

-- A store of which every private entry is read without what it says.
abbrev pub hiding_store : Store → Store
hiding_store s = record {
  World = s.World;
  get = λ id w. redacted (s.get id w);
  list = s.list;
  create = s.create;
  put = s.put;
  delete = s.delete;
}

abbrev pub hiding_opened : Option Opened → Option Opened
hiding_opened none = none
hiding_opened (some o) = some (record { store = hiding_store o.store; world = o.world })

abbrev pub hiding_ancestor : Ancestor → Ancestor
hiding_ancestor a = record a { store = hiding_opened a.store }

abbrev pub hiding_walked :
    {W : Type 0} → Result WalkError (List Ancestor) × W → Result WalkError (List Ancestor) × W
hiding_walked (err e, w) = (err e, w)
hiding_walked (ok ancestors, w) = (ok (map hiding_ancestor ancestors), w)

abbrev pub hiding_source : (t : Times) (W : Type 0) → ChainSource t W → ChainSource t W
hiding_source t W none = none
hiding_source t W (some source) = some (λ w. hiding_walked (source w))

pub hidden_kept :
    (e : Entry) → ((hidden e).id ≡ e.id) × ((hidden e).kind ≡ e.kind) × ((hidden e).state ≡ e.state)
hidden_kept e = elim (Bool-cases e.private) [
  | inl h ↦ rw h (refl, refl, refl)
  | inr h ↦ rw h (refl, refl, refl)
]

module _ (t : Times) (W : Type 0) (entry : Str → W → Result Str Entry × W)
    (is_cancelled : W → Bool × W) (o : Options t W) where
  unfoldable pub veiled : Str → W → Result Str Entry × W
  veiled id w = redacted (entry id w)

  unfoldable pub veiled_options : Options t W
  veiled_options = record o { chain_source = hiding_source t W o.chain_source }

  read_answer :
      (s : Store) (infos : List EntryInfo) (answer : Result StoreError Entry × s.World)
      → ((w : s.World)
          → read_intents t W veiled is_cancelled veiled_options (hiding_store s) infos w
            ≡ map hidden (read_intents t W entry is_cancelled o s infos w))
      → elim (redacted answer).0 [
        | err e ↦
            read_intents t W veiled is_cancelled veiled_options
              (hiding_store s)
              infos
              (redacted answer).1
        | ok e ↦
            if is_intent (some e.kind) && state_eq e.state active
            then e
              ∷ read_intents t W veiled is_cancelled veiled_options
                  (hiding_store s)
                  infos
                  (redacted answer).1
            else read_intents t W veiled is_cancelled veiled_options
                (hiding_store s)
                infos
                (redacted answer).1
      ]
        ≡ map hidden (elim answer.0 [
          | err e ↦ read_intents t W entry is_cancelled o s infos answer.1
          | ok e ↦
              if is_intent (some e.kind) && state_eq e.state active
              then e ∷ read_intents t W entry is_cancelled o s infos answer.1
              else read_intents t W entry is_cancelled o s infos answer.1
        ])
  read_answer s infos (err e, w1) rest = rest w1
  read_answer s infos (ok e, w1) rest =
      let (_, same_kind, same_state) = hidden_kept e in
      rw (same_kind, same_state, rest w1)
        (elim (Bool-cases (is_intent (some e.kind) && state_eq e.state active)) [
          | inl is ↦ rw is refl
          | inr other ↦ rw other refl
        ])

  read_intents-hidden :
      (s : Store) (infos : List EntryInfo) (w : s.World)
      → read_intents t W veiled is_cancelled veiled_options (hiding_store s) infos w
        ≡ map hidden (read_intents t W entry is_cancelled o s infos w)
  unfolding read_intents
  read_intents-hidden s [] w = refl
  read_intents-hidden s (info ∷ infos) w = elim (Bool-cases (names_intent info.id)) [
    | inr other ↦ rw (other, read_intents) (read_intents-hidden s infos w)
    | inl named ↦
        rw (named, read_intents)
          (read_answer s infos (s.get info.id w) (λ v. read_intents-hidden s infos v))
  ]

  intents_listed-hidden :
      (s : Store) (r : Result StoreError (List EntryInfo) × s.World)
      → intents_listed t W veiled is_cancelled veiled_options (hiding_store s) r
        ≡ map hidden (intents_listed t W entry is_cancelled o s r)
  intents_listed-hidden s (err e, w) = refl
  intents_listed-hidden s (ok infos, w) =
      ap (sort (λ (a b : Entry). str_lt a.id b.id)) (read_intents-hidden s infos w)
      ∙ sort-map (λ (a b : Entry). str_lt a.id b.id) (λ (a b : Entry). str_lt a.id b.id) hidden
          same_order (read_intents t W entry is_cancelled o s infos w)
    where
      same_order : (a b : Entry) → str_lt (hidden a).id (hidden b).id ≡ str_lt a.id b.id
      same_order a b = rw ((hidden_kept a).0, (hidden_kept b).0) refl

  pub active_intents-hidden :
      (opened : Option Opened)
      → active_intents t W veiled is_cancelled veiled_options (hiding_opened opened)
        ≡ map hidden (active_intents t W entry is_cancelled o opened)
  unfolding active_intents
  active_intents-hidden none = refl
  active_intents-hidden (some c) = intents_listed-hidden c.store (c.store.list c.world)
