-- ===== src/Mongo/Memory.antt =====
-- A collection kept as a list, which meets the laws that are asked of MongoDB. `docs` and `put` say
-- where the world keeps it. The witnesses and the tests run on it.
use ecommerce_microservice.Prelude.{
  ◌≡◌, refl, Bool, not, none, some, List, [], ◌∷◌, ◌++◌, find, update_first, filter, any, length,
  take, drop, arith, if◌then◌else◌,
}
use ecommerce_microservice.Shared.Action.{ok, throw, Action}
use ecommerce_microservice.Shared.Errors.{Error, foreign}
use ecommerce_microservice.Mongo.{
  Collection, CollectionLaws, Atomic, Available, duplicate_key_code, map_option, upserted,
}

abbrev pub duplicate_key : Error
duplicate_key = foreign (record {
  message = "E11000 duplicate key error";
  code = some duplicate_key_code;
  response = none;
})

module _ {W D : Type 0} (clash : D → D → Bool) (docs : W → List D) (put : List D → W → W) where
  abbrev pub memory_create : D → Action W D
  memory_create d w =
      if any (clash d) (docs w) then (throw duplicate_key, w) else (ok d, put (docs w ++ d ∷ []) w)

  abbrev pub memory : Collection W D
  memory = record {
    find_one = λ f w. (ok (find f (docs w)), w);
    find_one_and_update =
        λ f u w. (ok (map_option u (find f (docs w))), put (update_first f u (docs w)) w);
    upsert = λ f d w. (ok tt, put (upserted f d (docs w)) w);
    delete_many = λ f w. (ok tt, put (filter (λ d. not (f d)) (docs w)) w);
    create = memory_create;
    find_skip_limit = λ skip limit w. (ok (take limit (drop skip (docs w))), w);
    count_documents = λ w. (ok (length (docs w)), w);
  }

  pub memory_laws :
      ((ds : List D) (w : W) → docs (put ds w) ≡ ds) → CollectionLaws memory clash docs
  memory_laws kept = record {
    find_one_lem = λ f w w' r e. ground arith;
    find_one_fails = λ f w w' e h. cc;
    update_lem = λ f u w w' r e. ground (arith, kept (update_first f u (docs w)) w);
    upsert_lem = λ f d w w' e. ground (arith, kept (upserted f d (docs w)) w);
    delete_lem = λ f w w' e. ground (arith, kept (filter (λ d. not (f d)) (docs w)) w);
    create_lem = λ d w w' r e. ground (arith, kept (docs w ++ d ∷ []) w);
    create_duplicate = λ d w w' e h k. ground arith;
    skip_limit_lem = λ skip limit w w' r e. ground arith;
    skip_limit_fails = λ skip limit w w' e h. cc;
    count_fails = λ w w' e h. cc;
    count_lem = λ w w' n e. ground arith;
  }

  pub memory-Atomic : Atomic memory docs
  memory-Atomic = record { update_fails = λ f u w w' e h. cc; upsert_fails = λ f d w w' e h. cc }

  pub memory-Available : Available memory
  memory-Available = record {
    find_answers = λ f w. (find f (docs w), w, refl);
    update_answers =
        λ f u w. (map_option u (find f (docs w)), put (update_first f u (docs w)) w, refl);
  }
