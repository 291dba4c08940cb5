-- ===== src/Cluster/Checksums/Laws.antt =====
-- What ChecksumReplica (src/common/k8stest/util_replica.go) reports.
use mayastor_e2e.Prelude.{
  ℕ, zero, suc, ◌≡◌, refl, subst, String, ◌==◌, Option, none, some, Outcome, ok, err, panic, true,
  false, arith, Bool-cases, Option-cases, text_cases, inl, inr, contains,
}
use mayastor_e2e.Cluster.Checksums.{
  Exec, trim_space, nqn_of, Decoded, find_device, device_rounds, Node, checksum_device,
  checksum_connected, checksum_replica,
}

find_device_clean :
    (decode : String → Decoded) (x : Exec)
    → ((s : String) → (decode s).error ≡ none)
    → find_device decode x ≡ none
unfolding find_device
find_device_clean decode x clean = go x.error refl
  where
    go : (e : Option String) → x.error ≡ e → find_device decode x ≡ none
    go (some e) q = ground (arith, q, Bool-cases (x.output == ""))
    go none q = ground (arith, q, clean x.output, Bool-cases (x.output == ""))

device_rounds_clean :
    (decode : String → Decoded) (left n : ℕ) (answer : ℕ → Exec)
    → ((s : String) → (decode s).error ≡ none)
    → device_rounds decode left n answer ≡ err "Failed to get device path"
unfolding device_rounds
device_rounds_clean decode zero n answer clean = refl
device_rounds_clean decode (suc left) n answer clean =
    rw (device_rounds, find_device_clean decode (answer n) clean)
      (device_rounds_clean decode left (suc n) answer clean)

-- Where the target connects in silence and every output of `nvme list` decodes without an error,
-- ChecksumReplica finds no device, however often it tries.
pub checksum_replica_clean :
    (decode : String → Decoded) (node : Node) (target_ip uri nqn : String) (max_retries : ℕ)
    → nqn_of uri ≡ ok nqn
    → (node.connect nqn target_ip).error ≡ none
    → trim_space (node.connect nqn target_ip).output ≡ ""
    → ((s : String) → (decode s).error ≡ none)
    → checksum_replica decode node target_ip uri max_retries ≡ err "Failed to get device path"
unfolding checksum_replica checksum_connected
checksum_replica_clean decode node target_ip uri nqn max_retries target connected silent clean =
    rw
      (
        checksum_replica,
        target,
        connected,
        silent,
        checksum_connected,
        device_rounds_clean decode max_retries 0 node.list clean,
      )
      refl

-- What a checksum shows: it names the device, and once the target is disconnected no device that is
-- listed does.
abbrev pub IsChecked : Node → (name text : String) → Type 0
IsChecked node name text =
    (contains text name ≡ true)
    × (node.devices.error ≡ none)
    × (contains node.devices.output name ≡ false)

ok-injective {ℓ} : {A : Type ℓ} {a b : A} → ok a ≡ ok b → a ≡ b
ok-injective h = cc h

checksum_device-ok :
    (node : Node) (nqn path name text : String)
    → checksum_device node nqn path name ≡ ok text
    → IsChecked node name text
unfolding checksum_device
checksum_device-ok node nqn path name text h =
    go (node.checksum path).error (node.disconnect nqn).error node.devices.error refl refl refl h
  where
    said : String
    said = trim_space (node.checksum path).output

    go :
        (a b c : Option String)
        → (node.checksum path).error ≡ a
        → (node.disconnect nqn).error ≡ b
        → node.devices.error ≡ c
        → checksum_device node nqn path name ≡ ok text
        → IsChecked node name text
    go (some e) b c p q r t = ground (arith, p, t)
    go none (some e) c p q r t = ground (arith, p, q, t, Bool-cases (contains said name))
    go none none (some e) p q r t = ground (arith, p, q, r, t, Bool-cases (contains said name))
    go none none none p q r t = elim (Bool-cases (contains said name)) [
      | inr x ↦ ground (arith, p, q, r, t, x)
      | inl x ↦ elim (Bool-cases (contains node.devices.output name)) [
        | inl y ↦ ground (arith, p, q, r, t, x, y)
        | inr y ↦
            let same = ok-injective (ground (arith, p, q, r, t, x, y)) in
            (subst (λ (u : String). contains u name ≡ true) same x, r, y)
      ]
    ]

checksum_connected-ok :
    (decode : String → Decoded) (node : Node) (max_retries : ℕ) (nqn text : String)
    → checksum_connected decode node max_retries nqn ≡ ok text
    → (name : String) × IsChecked node name text
unfolding checksum_connected
checksum_connected-ok decode node max_retries nqn text h =
    go (device_rounds decode max_retries 0 node.list) refl
  where
    go :
        (o : Outcome (String × String))
        → device_rounds decode max_retries 0 node.list ≡ o
        → (name : String) × IsChecked node name text
    go (err e) q = ground (arith, q, h)
    go panic q = ground (arith, q, h)
    go (ok (path, name)) q =
        (name, checksum_device-ok node nqn path name text (ground (arith, q, h)))

-- Where ChecksumReplica gives a text, the target was connected in silence, and for some device the text
-- names it and it is not listed once the target is disconnected.
pub checksum_replica-ok :
    (decode : String → Decoded) (node : Node) (target_ip uri text : String) (max_retries : ℕ)
    → checksum_replica decode node target_ip uri max_retries ≡ ok text
    → (nqn : String) × (nqn_of uri ≡ ok nqn)
      × ((node.connect nqn target_ip).error ≡ none)
      × (trim_space (node.connect nqn target_ip).output ≡ "")
      × ((name : String) × IsChecked node name text)
unfolding checksum_replica
checksum_replica-ok decode node target_ip uri text max_retries h = go (nqn_of uri) refl
  where
    go :
        (o : Outcome String)
        → nqn_of uri ≡ o
        → (nqn : String) × (nqn_of uri ≡ ok nqn)
          × ((node.connect nqn target_ip).error ≡ none)
          × (trim_space (node.connect nqn target_ip).output ≡ "")
          × ((name : String) × IsChecked node name text)
    go (err e) q = ground (arith, q, h)
    go panic q = ground (arith, q, h)
    go (ok nqn) q = elim (Option-cases (node.connect nqn target_ip).error) [
      | inr (e, f) ↦ ground (arith, q, f, h)
      | inl f ↦ elim (text_cases (trim_space (node.connect nqn target_ip).output) "") [
        | inr r ↦ ground (arith, q, f, r.0, h)
        | inl r ↦ (
          nqn,
          q,
          f,
          r.1,
          checksum_connected-ok decode node max_retries nqn text (ground (arith, q, f, r.0, h)),
        )
      ]
    ]
