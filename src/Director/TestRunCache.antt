-- ===== src/Director/TestRunCache.antt =====
-- src/tools/extended-test-framework/test_director/handlers/test_runs_cache.go: TestRunCache.
use mayastor_e2e.Prelude.{String, List, Option, Outcome}
use mayastor_e2e.Cache.Typed
use mayastor_e2e.Models.{TestRun}
use mayastor_e2e.Director.{Platform}

module _ (p : Platform) where
  open p use {cache, run_codec}

  abbrev pub get : cache.Store → String → Option TestRun
  get = Typed.fetch cache run_codec

  abbrev pub get_all : cache.Store → Option (List TestRun)
  get_all = Typed.fetch_all cache run_codec

  abbrev pub set : cache.Store → String → TestRun → Outcome cache.Store
  set = Typed.store cache run_codec

  abbrev pub delete : cache.Store → String → Outcome cache.Store
  delete = Typed.remove cache run_codec "not found"
