-- ===== src/Cache/Reference.antt =====
-- A cache and a JSON codec for the tests: an association list with distinct keys, whose values are
-- the records themselves.
use mayastor_e2e.Prelude.{◌≡◌, refl, String, [], List, Option, none, some, ok}
use mayastor_e2e.GoMap.{
  lookup, insert, erase, Distinct, lookup-insert, lookup-erase, insert-Distinct, erase-Distinct,
}
use mayastor_e2e.Models.{TestPlan, TestRun, Event}
use mayastor_e2e.Cache.{Cache}
use mayastor_e2e.Director.{Platform}

-- An encoded record.
pub data Document : Type 0 where
  plan_document : TestPlan → Document
  run_document : TestRun → Document
  event_document : Event → Document

abbrev pub Entries : Type 0
Entries = (m : List (String × Document)) × Distinct m

pub nothing_found :
    (k : String) → (let empty : List (String × Document) = [] in lookup k empty) ≡ none
unfolding lookup
nothing_found k = refl

-- go-cache as an association list.
abbrev pub list_cache : Cache Document
list_cache = record {
  Store = Entries;
  new = ([], tt);
  get = λ s k. lookup k s.0;
  set = λ s k v. (insert k v s.0, insert-Distinct k v s.0 s.1);
  delete = λ s k. (erase k s.0, erase-Distinct k s.0 s.1);
  items = λ s. s.0;
  get-new = nothing_found;
  get-set = λ s k j v. lookup-insert k j v s.0;
  get-delete = λ s k j. lookup-erase k j s.0 s.1;
  lookup-items = λ s k. refl;
  items-Distinct = λ s. s.1;
}

abbrev pub decoded_plan : Document → Option TestPlan
decoded_plan (plan_document a) = some a
decoded_plan _ = none

abbrev pub decoded_run : Document → Option TestRun
decoded_run (run_document a) = some a
decoded_run _ = none

abbrev pub decoded_event : Document → Option Event
decoded_event (event_document a) = some a
decoded_event _ = none

abbrev pub reference : Platform
reference = record {
  Bytes = Document;
  cache = list_cache;
  plan_codec = record {
    marshal = λ a. ok (plan_document a);
    unmarshal = decoded_plan;
    unmarshal-marshal = λ a. (plan_document a, refl, refl);
  };
  run_codec = record {
    marshal = λ a. ok (run_document a);
    unmarshal = decoded_run;
    unmarshal-marshal = λ a. (run_document a, refl, refl);
  };
  event_codec = record {
    marshal = λ a. ok (event_document a);
    unmarshal = decoded_event;
    unmarshal-marshal = λ a. (event_document a, refl, refl);
  };
}
