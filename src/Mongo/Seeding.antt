-- ===== src/Mongo/Seeding.antt =====
-- A collection that is seeded: the loop that the seed scripts share, and what it leaves to be found.
use ecommerce_microservice.Prelude.{
  String, ◌≡◌, refl, sym, ap, ◌∙◌, inl, inr, Bool, true, false, not, Bool-cases, Option, none, some,
  Option-cases, List, [], ◌∷◌, ◌++◌, find, find-append_none, find-append_some, filter, any, str_eq,
  str_eq_iff, if◌then◌else◌, arith,
}
use ecommerce_microservice.Shared.Action.{Outcome, ok, throw, Action, ok-eq}
use ecommerce_microservice.Mongo.{
  Collection, CollectionLaws, upserted, upserted-miss, upserted-present,
}

-- What `Promise.all` of two answers is, when each promise settles.
abbrev pub both : Outcome (Unit {0}) → Outcome (Unit {0}) → Outcome (Unit {0})
both (ok _) r = r
both (throw e) r = throw e

abbrev pub first_of : {A : Type 0} → Option A → Option A → Option A
first_of none o = o
first_of (some a) o = some a

seeded_if :
    {A : Type 0} (b : Bool) (o p : Option A)
    → first_of (if b then none else o) p ≡ (if b then p else first_of o p)
seeded_if true o p = refl
seeded_if false o p = refl

both-eq-ok :
    {W : Type 0} (p : Outcome (Unit {0}) × W) (g : Action W (Unit {0})) {w' : W}
    → ◌≡◌ {A = Outcome (Unit {0}) × W} (both p.0 (g p.1).0, (g p.1).1) (ok tt, w')
    → (u : W) × (p ≡ (ok tt, u)) × (g u ≡ (ok tt, w'))
both-eq-ok (ok done, u) g h = (u, refl, h)
both-eq-ok (throw e, u) g h = cc

first_of-none : {A : Type 0} (o : Option A) → first_of o none ≡ o
first_of-none none = refl
first_of-none (some a) = refl

first_of_assoc :
    {A : Type 0} (o p q : Option A) → first_of (first_of o p) q ≡ first_of o (first_of p q)
first_of_assoc none p q = refl
first_of_assoc (some a) p q = refl

first_of-if :
    {A : Type 0} (b : Bool) (a : A) (o : Option A)
    → first_of (if b then some a else none) o ≡ (if b then some a else o)
first_of-if true a o = refl
first_of-if false a o = refl

module _ {D : Type 0} (key : D → String) where
  -- `{ <key>: id }`
  abbrev pub key_is : String → D → Bool
  key_is id d = str_eq (key d) id

  -- `{ <key>: { $in: ids } }`
  abbrev pub key_in : List String → D → Bool
  key_in ids d = any (λ id. str_eq (key d) id) ids

  abbrev upserted_all : List D → List D → List D
  upserted_all [] ds = ds
  upserted_all (d ∷ seeds) ds = upserted_all seeds (upserted (key_is (key d)) d ds)

  -- What a lookup finds in a collection that was seeded.
  abbrev pub seeded_lookup : List String → List D → String → List D → Option D
  seeded_lookup retired seeds id ds =
      if any (λ other. str_eq id other) retired
      then find (key_is id) seeds
      else first_of (find (key_is id) ds) (find (key_is id) seeds)

  module _ {W : Type 0} (collection : Collection W D) where
    -- `findOneAndUpdate({ <key> }, { $setOnInsert: d }, { upsert: true, new: true })`
    abbrev pub ensure : D → Action W (Unit {0})
    ensure d = collection.upsert (key_is (key d)) d

    -- `Promise.all` starts all calls; here they act in the order of the list.
    unfoldable pub ensure_all : List D → Action W (Unit {0})
    ensure_all [] w = (ok tt, w)
    ensure_all (d ∷ ds) w = let (r, u) = ensure d w in let (s, v) = ensure_all ds u in (both r s, v)

  append-find :
      (id : String) (d : D) (ds : List D)
      → find (key_is id) (ds ++ d ∷ [])
        ≡ first_of (find (key_is id) ds) (if key_is id d then some d else none)
  append-find id d ds = elim (Option-cases (find (key_is id) ds)) [
    | inl missing ↦ rw (missing, find-append_none (key_is id) ds d missing)
    | inr (c, there) ↦ rw (there, find-append_some (key_is id) ds (d ∷ []) there)
  ]

  upserted-find :
      (id : String) (d : D) (ds : List D)
      → find (key_is id) (upserted (key_is (key d)) d ds)
        ≡ first_of (find (key_is id) ds) (if key_is id d then some d else none)
  upserted-find id d ds = elim (Option-cases (find (key_is (key d)) ds)) [
    | inl missing ↦
        let added = ap (find (key_is id)) (upserted-miss (key_is (key d)) d ds missing) in
        added ∙ append-find id d ds
    | inr (c, there) ↦
        let same = ap (find (key_is id)) (upserted-present (key_is (key d)) d c ds there) in
        same ∙ elim (Bool-cases (key_is id d)) [
          | inl hit ↦
              let is_id = (str_eq_iff (key d) id).0 hit in
              let found : find (key_is id) ds ≡ some c =
                ap (λ k. find (key_is k) ds) (sym is_id) ∙ there in
              rw found
          | inr other ↦ rw (other, first_of-none (find (key_is id) ds))
        ]
  ]

  upserted_all-find :
      (id : String) (seeds ds : List D)
      → find (key_is id) (upserted_all seeds ds)
        ≡ first_of (find (key_is id) ds) (find (key_is id) seeds)
  upserted_all-find id [] ds = sym (first_of-none (find (key_is id) ds))
  upserted_all-find id (d ∷ seeds) ds =
      upserted_all-find id seeds (upserted (key_is (key d)) d ds)
      ∙ rw (
        upserted-find id d ds,
        first_of_assoc (find (key_is id) ds) (if key_is id d then some d else none)
            (find (key_is id) seeds),
        first_of-if (key_is id d) d (find (key_is id) seeds),
      )

  filter-find :
      (id : String) (retired : List String) (ds : List D)
      → find (key_is id) (filter (λ d. not (key_in retired d)) ds)
        ≡ (if any (λ other. str_eq id other) retired then none else find (key_is id) ds)
  filter-find id retired [] = ground arith
  filter-find id retired (d ∷ ds) = elim (Bool-cases (key_is id d)) [
    | inl hit ↦
        let is_id = (str_eq_iff (key d) id).0 hit in
        let gone = ap (λ k. any (λ other. str_eq k other) retired) is_id in
        elim (Bool-cases (any (λ other. str_eq id other) retired)) [
          | inl old ↦ rw (gone, old, filter-find id retired ds, old)
          | inr new ↦ rw (gone, new, hit)
        ]
    | inr other ↦ elim (Bool-cases (key_in retired d)) [
      | inl old ↦ rw (old, other, filter-find id retired ds)
      | inr new ↦ rw (new, other, filter-find id retired ds)
    ]
  ]

  module _ {W : Type 0} {collection : Collection W D} {clash : D → D → Bool} {docs : W → List D}
      (laws : CollectionLaws collection clash docs) where
    ensure_all-docs :
        (seeds : List D) (w w' : W)
        → ensure_all collection seeds w ≡ (ok tt, w')
        → docs w' ≡ upserted_all seeds (docs w)
    unfolding ensure_all
    ensure_all-docs [] w w' h = ap docs (sym (ok-eq h).1)
    ensure_all-docs (d ∷ seeds) w w' h =
        let (u, e, rest) = both-eq-ok (ensure collection d w) (ensure_all collection seeds) h in
        ensure_all-docs seeds u w' rest
        ∙ ap (upserted_all seeds) (laws.upsert_lem (key_is (key d)) d w u e)

    -- Deleting the retired and then ensuring the seeds.
    pub seeded-find :
        (retired : List String) (seeds : List D) (w u v : W) (id : String)
        → collection.delete_many (key_in retired) w ≡ (ok tt, u)
        → ensure_all collection seeds u ≡ (ok tt, v)
        → find (key_is id) (docs v) ≡ seeded_lookup retired seeds id (docs w)
    seeded-find retired seeds w u v id deleted ensured =
        let kept = laws.delete_lem (key_in retired) w u deleted in
        ap (find (key_is id)) (ensure_all-docs seeds u v ensured)
        ∙ upserted_all-find id seeds (docs u)
        ∙ ap (λ ds. first_of (find (key_is id) ds) (find (key_is id) seeds)) kept
        ∙ ap (λ o. first_of o (find (key_is id) seeds)) (filter-find id retired (docs w))
        ∙ seeded_if (any (λ other. str_eq id other) retired) (find (key_is id) (docs w))
            (find (key_is id) seeds)
