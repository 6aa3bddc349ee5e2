-- ===== src/Mongo.antt =====
-- A Mongoose model, which is not part of the repository: the calls that the repositories make on
-- it, and what MongoDB documents of them. A document of the collection is a value of type `D`.
pub mod Memory
pub mod Database
pub mod Seeding
use ecommerce_microservice.Prelude.{
  ℕ, String, ◌≡◌, refl, ap, ◌⊎◌, arith, Bool, true, false, not, Option, none, some, List, [], ◌∷◌,
  ◌++◌, find, update_first, filter, any, length,
}
use ecommerce_microservice.Shared.Action.{Action, ok, throw}
use ecommerce_microservice.Shared.Errors.{Error, numeric_code_of}

-- The code of the driver's error on a unique index.
abbrev pub duplicate_key_code : ℕ
duplicate_key_code = 11000

-- A query filter is a test, an update a function, and `{ new: true }` gives the document after it.
pub record Collection (W D : Type 0) : Type 0 where
  pub find_one : (D → Bool) → Action W (Option D)
  pub find_one_and_update : (D → Bool) → (D → D) → Action W (Option D)
  pub upsert : (D → Bool) → D → Action W (Unit {0})
  pub delete_many : (D → Bool) → Action W (Unit {0})
  pub create : D → Action W D
  pub find_skip_limit : ℕ → ℕ → Action W (List D)
  pub count_documents : Action W ℕ

-- `mongoose.connect(uri)` and `mongoose.disconnect()`.
pub record Mongoose (W : Type 0) : Type 0 where
  pub connect : String → Action W (Unit {0})
  pub disconnect : Action W (Unit {0})

abbrev pub map_option : {A B : Type 0} → (A → B) → Option A → Option B
map_option f none = none
map_option f (some a) = some (f a)

abbrev pub upserted_at : {D : Type 0} → D → List D → Option D → List D
upserted_at d docs none = docs ++ d ∷ []
upserted_at d docs (some _) = docs

-- `{ $setOnInsert: d }` with `{ upsert: true }`
abbrev pub upserted : {D : Type 0} → (D → Bool) → D → List D → List D
upserted f d docs = upserted_at d docs (find f docs)

-- What a call that does not fail does to the documents. `clash` says when two documents violate a
-- unique index. Each call acts on one document at a time, as a whole. Of calls that fail, only
-- reads and refusals by a unique index are promised to leave the documents alone.
pub record CollectionLaws {W D : Type 0} (c : Collection W D) (clash : D → D → Bool)
    (docs : W → List D) : Type 0 where
  pub find_one_lem :
      (f : D → Bool) (w w' : W) (r : Option D)
      → c.find_one f w ≡ (ok r, w')
      → (r ≡ find f (docs w)) × (docs w' ≡ docs w)
  pub find_one_fails :
      (f : D → Bool) (w w' : W) (e : Error) → c.find_one f w ≡ (throw e, w') → docs w' ≡ docs w
  pub update_lem :
      (f : D → Bool) (u : D → D) (w w' : W) (r : Option D)
      → c.find_one_and_update f u w ≡ (ok r, w')
      → (r ≡ map_option u (find f (docs w))) × (docs w' ≡ update_first f u (docs w))
  pub upsert_lem :
      (f : D → Bool) (d : D) (w w' : W)
      → c.upsert f d w ≡ (ok tt, w')
      → docs w' ≡ upserted f d (docs w)
  pub delete_lem :
      (f : D → Bool) (w w' : W)
      → c.delete_many f w ≡ (ok tt, w')
      → docs w' ≡ filter (λ d. not (f d)) (docs w)
  pub create_lem :
      (d : D) (w w' : W) (r : D)
      → c.create d w ≡ (ok r, w')
      → (r ≡ d) × (docs w' ≡ docs w ++ d ∷ []) × (any (clash d) (docs w) ≡ false)
  pub create_duplicate :
      (d : D) (w w' : W) (e : Error)
      → c.create d w ≡ (throw e, w')
      → numeric_code_of e ≡ some duplicate_key_code
      → (docs w' ≡ docs w) × (any (clash d) (docs w) ≡ true)
  -- A query without a sort promises no order: not which documents it returns.
  pub skip_limit_lem :
      (skip limit : ℕ) (w w' : W) (r : List D)
      → c.find_skip_limit skip limit w ≡ (ok r, w')
      → docs w' ≡ docs w
  pub skip_limit_fails :
      (skip limit : ℕ) (w w' : W) (e : Error)
      → c.find_skip_limit skip limit w ≡ (throw e, w')
      → docs w' ≡ docs w
  pub count_fails : (w w' : W) (e : Error) → c.count_documents w ≡ (throw e, w') → docs w' ≡ docs w
  pub count_lem :
      (w w' : W) (n : ℕ)
      → c.count_documents w ≡ (ok n, w')
      → (n ≡ length (docs w)) × (docs w' ≡ docs w)

-- A write to one document is applied as a whole or not at all, also when the call that makes it fails,
-- which may happen after the write: a connection that breaks before the answer arrives.
pub record Atomic {W D : Type 0} (c : Collection W D) (docs : W → List D) : Type 0 where
  pub update_fails :
      (f : D → Bool) (u : D → D) (w w' : W) (e : Error)
      → c.find_one_and_update f u w ≡ (throw e, w')
      → (docs w' ≡ docs w) ⊎ (docs w' ≡ update_first f u (docs w))
  pub upsert_fails :
      (f : D → Bool) (d : D) (w w' : W) (e : Error)
      → c.upsert f d w ≡ (throw e, w')
      → (docs w' ≡ docs w) ⊎ (docs w' ≡ upserted f d (docs w))

-- That the database is up: reads and updates answer.
pub record Available {W D : Type 0} (c : Collection W D) : Type 0 where
  pub find_answers :
      (f : D → Bool) (w : W) → (r : Option D) × (w' : W) × (c.find_one f w ≡ (ok r, w'))
  pub update_answers :
      (f : D → Bool) (u : D → D) (w : W)
      → (r : Option D) × (w' : W) × (c.find_one_and_update f u w ≡ (ok r, w'))

pub map_option-eq-some :
    {A B : Type 0} (f : A → B) (o : Option A) {b : B}
    → map_option f o ≡ some b
    → (a : A) × (o ≡ some a) × (b ≡ f a)
map_option-eq-some f none h = cc
map_option-eq-some f (some a) h = (a, refl, ground arith)

pub map_option-eq-none :
    {A B : Type 0} (f : A → B) (o : Option A) → map_option f o ≡ none → o ≡ none
map_option-eq-none f none h = refl
map_option-eq-none f (some a) h = cc

pub upserted-miss :
    {D : Type 0} (f : D → Bool) (d : D) (ds : List D)
    → find f ds ≡ none
    → upserted f d ds ≡ ds ++ d ∷ []
upserted-miss f d ds e = ap (upserted_at d ds) e

pub upserted-present :
    {D : Type 0} (f : D → Bool) (d c : D) (ds : List D) → find f ds ≡ some c → upserted f d ds ≡ ds
upserted-present f d c ds e = ap (upserted_at d ds) e
