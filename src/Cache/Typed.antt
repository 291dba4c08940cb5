-- ===== src/Cache/Typed.antt =====
-- A go-cache read and written through a JSON codec: what the caches of test plans, of test runs and
-- of events have in common.
use mayastor_e2e.Prelude.{
  or_nil, ◌≡◌, refl, sym, ◌∙◌, ap, inl, inr, String, ◌==◌, List, [], ◌∷◌, map, Option, none, some,
  arith, if◌then◌else◌, Outcome, ok, err, panic, bind_option, map_option, ◌>>=◌, text_cases,
  text_self, All,
}
use mayastor_e2e.GoMap.{lookup, Distinct}
use mayastor_e2e.Cache.{Cache, Codec}

module _ {B A : Type 0} (c : Cache B) (j : Codec B A) where
  open c use {
    Store, get, set, delete, items, get-set, get-delete, get-new, lookup-items, items-Distinct,
  }
  open j use {marshal, unmarshal, unmarshal-marshal}

  -- `Get(key)`: `none` for a missing record, and for one that does not decode.
  unfoldable pub fetch : Store → String → Option A
  fetch s k = bind_option (get s k) unmarshal

  -- `Set(key, record)`
  unfoldable pub store : Store → String → A → Outcome Store
  store s k a = do b ← marshal a; ok (set s k b)

  -- `Set` where the caller drops the error.
  unfoldable pub put : Store → String → A → Store
  unfolding store
  put s k a = elim (store s k a) [ ok s' ↦ s' | err e ↦ s | panic ↦ s ]

  -- `Delete(key)`
  unfoldable pub remove : String → Store → String → Outcome Store
  unfolding fetch
  remove missing s k = elim (fetch s k) [ none ↦ err missing | some a ↦ ok (delete s k) ]

  decode_all : List (String × B) → Option (List A)
  decode_all [] = some []
  decode_all ((k, b) ∷ es) =
      bind_option (unmarshal b) (λ a. map_option (λ l. a ∷ l) (decode_all es))

  -- `GetAll()`: `none`, which is Go's nil, for an empty cache and where a record does not decode.
  unfoldable pub fetch_all : Store → Option (List A)
  unfolding decode_all
  fetch_all s = elim (items s) [ [] ↦ none | e ∷ es ↦ decode_all (e ∷ es) ]

  pub store-put : (s : Store) (k : String) (a : A) → store s k a ≡ ok (put s k a)
  unfolding put
  store-put s k a = let (b, e, _) = unmarshal-marshal a in ground (arith, e)

  pub fetch-put :
      (s : Store) (k i : String) (a : A)
      → fetch (put s k a) i ≡ (if k == i then some a else fetch s i)
  unfolding put fetch
  fetch-put s k i a = let (b, e, d) = unmarshal-marshal a in ground (arith, e, d, get-set s k i b)

  pub fetch-delete :
      (s : Store) (k i : String) → fetch (delete s k) i ≡ (if k == i then none else fetch s i)
  unfolding fetch
  fetch-delete s k i = ground (arith, get-delete s k i)

  pub fetch-new : (i : String) → fetch c.new i ≡ none
  unfolding fetch
  fetch-new i = ground (arith, get-new i)

  -- Every record in the store decodes.
  abbrev pub IsReadable : Store → Type 0
  IsReadable s = (k : String) (b : B) → get s k ≡ some b → (a : A) × (unmarshal b ≡ some a)

  pub new-IsReadable : IsReadable c.new
  new-IsReadable k b e = ground (arith, get-new k)

  pub put-IsReadable : (s : Store) (k : String) (a : A) → IsReadable s → IsReadable (put s k a)
  unfolding put
  put-IsReadable s k a r i b e =
      let (b', m, d) = unmarshal-marshal a in
      elim (text_cases k i) [
        | inl (t, _) ↦ (a, ground (arith, m, d, t, get-set s k i b'))
        | inr (t, _) ↦ r i b (ground (arith, m, d, t, get-set s k i b'))
      ]

  pub delete-IsReadable : (s : Store) (k : String) → IsReadable s → IsReadable (delete s k)
  delete-IsReadable s k r i b e = elim (text_cases k i) [
    | inl (t, _) ↦ absurd (ground (arith, t, get-delete s k i))
    | inr (t, _) ↦ r i b (ground (arith, t, get-delete s k i))
  ]

  -- The records of a store with their keys, in the order of `Items`.
  pub record IsListing (s : Store) (m : List (String × A)) : Type 0 where
    pub found : (k : String) → lookup k m ≡ fetch s k
    pub distinct : Distinct m

  abbrev pub values : List (String × A) → List A
  values = map (λ e. e.1)

  abbrev pub as_slice : List (String × A) → Option (List A)
  as_slice [] = none
  as_slice (e ∷ es) = some (values (e ∷ es))

  pub or_nil-as_slice : (m : List (String × A)) → or_nil (as_slice m) ≡ values m
  or_nil-as_slice [] = refl
  or_nil-as_slice (e ∷ es) = refl

  -- The entries that decode.
  decoded : List (String × B) → List (String × A)
  decoded [] = []
  decoded ((k, b) ∷ es) = elim (unmarshal b) [ none ↦ decoded es | some a ↦ (k, a) ∷ decoded es ]

  abbrev Decodes : List (String × B) → Type 0
  Decodes es = All (λ (e : String × B). (a : A) × (unmarshal e.1 ≡ some a)) es

  readable-Decodes :
      (es : List (String × B))
      → Distinct es
      → ((k : String) (b : B) → lookup k es ≡ some b → (a : A) × (unmarshal b ≡ some a))
      → Decodes es
  unfolding lookup
  readable-Decodes [] d r = tt
  readable-Decodes ((k, b) ∷ es) d r = (
    r k b (rw (text_self k)),
    readable-Decodes es d.1 λ i v e. elim (text_cases k i) [
      | inl (_, p) ↦ absurd (cc (d.0, ap (λ x. lookup x es) p, e))
      | inr (t, _) ↦ r i v (rw t e)
    ],
  )

  lookup-decoded :
      (es : List (String × B)) (k : String)
      → Decodes es
      → lookup k (decoded es) ≡ bind_option (lookup k es) unmarshal
  unfolding decoded lookup
  lookup-decoded [] k r = refl
  lookup-decoded ((i, b) ∷ es) k r = ground (arith, r.0.1, lookup-decoded es k r.1)

  decoded-Distinct : (es : List (String × B)) → Decodes es → Distinct es → Distinct (decoded es)
  unfolding decoded
  decoded-Distinct [] r d = tt
  decoded-Distinct ((i, b) ∷ es) r d =
      ground (arith, r.0.1, d.0, lookup-decoded es i r.1, decoded-Distinct es r.1 d.1)

  decode_all-decoded :
      (es : List (String × B)) → Decodes es → decode_all es ≡ some (values (decoded es))
  unfolding decode_all decoded
  decode_all-decoded [] r = refl
  decode_all-decoded ((i, b) ∷ es) r = ground (arith, r.0.1, decode_all-decoded es r.1)

  as_slice-decoded :
      (es : List (String × B))
      → Decodes es
      → elim es [ [] ↦ none | e ∷ es' ↦ decode_all (e ∷ es') ] ≡ as_slice (decoded es)
  unfolding decoded
  as_slice-decoded [] r = refl
  as_slice-decoded ((i, b) ∷ es) r = ground (arith, r.0.1, decode_all-decoded ((i, b) ∷ es) r)

  -- `GetAll` of a readable store returns its records, each once, and nil if there is none.
  pub listing :
      (s : Store)
      → IsReadable s
      → (m : List (String × A)) × IsListing s m × (fetch_all s ≡ as_slice m)
  unfolding fetch_all fetch
  listing s r =
      let ds =
        readable-Decodes (items s) (items-Distinct s)
          (λ k b e. r k b (sym (lookup-items s k) ∙ e)) in
      (
        decoded (items s),
        record {
          found = λ k.
              lookup-decoded (items s) k ds ∙ ap (λ o. bind_option o unmarshal) (lookup-items s k);
          distinct = decoded-Distinct (items s) ds (items-Distinct s);
        },
        as_slice-decoded (items s) ds,
      )
