-- ===== src/Cache.antt =====
-- The in-memory stores of the test director (src/tools/extended-test-framework/test_director/handlers/
-- *_cache.go). Each is a `cache.Cache` of github.com/patrickmn/go-cache, opened with no expiry, that
-- holds records as the bytes of their JSON. Neither that package nor the JSON encoding is code of
-- the repository: both are parameters, with the laws that their documentation gives.
pub mod Typed
pub mod Reference
use mayastor_e2e.Prelude.{◌≡◌, String, ◌==◌, List, Option, none, some, if◌then◌else◌, Outcome, ok}
use mayastor_e2e.GoMap.{lookup, Distinct}

-- A go-cache whose values never expire. `Items` copies the unexpired entries into a Go map, whose
-- order under `range` is any order: here the order of a list with distinct keys.
pub record Cache (B : Type 0) : Type 1 where
  pub Store : Type 0
  pub new : Store
  pub get : Store → String → Option B
  pub set : Store → String → B → Store
  pub delete : Store → String → Store
  pub items : Store → List (String × B)
  pub get-new : (k : String) → get new k ≡ none
  pub get-set :
      (s : Store) (k j : String) (v : B) → get (set s k v) j ≡ (if k == j then some v else get s j)
  pub get-delete :
      (s : Store) (k j : String) → get (delete s k) j ≡ (if k == j then none else get s j)
  pub lookup-items : (s : Store) (k : String) → lookup k (items s) ≡ get s k
  pub items-Distinct : (s : Store) → Distinct (items s)

-- `json.Marshal` and `json.Unmarshal` at one record type; A record without
-- channels, functions and cycles is always encoded, and decodes to itself.
pub record Codec (B A : Type 0) : Type 0 where
  pub marshal : A → Outcome B
  pub unmarshal : B → Option A
  pub unmarshal-marshal : (a : A) → (b : B) × (marshal a ≡ ok b) × (unmarshal b ≡ some a)
