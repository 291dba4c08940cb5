-- ===== src/Cluster/Checksums.antt =====
-- The comparison of replicas (ChecksumReplica of src/common/k8stest/util_replica.go). What is run on a
-- node and what decodes its output are parameters.
pub mod Laws
use mayastor_e2e.Prelude.{
  ℕ, zero, suc, String, ◌==◌, List, [], ◌∷◌, Option, none, some, Outcome, ok, err, panic, Bool,
  true, false, not, ◌&&◌, ◌||◌, if◌then◌else◌, eqb, leb, concat, contains, has_prefix, before,
}
use Prim.Native.String
use Prim.Native.Char.{code}
use mayastor_e2e.Types.{Replica}
use mayastor_e2e.Grpc.Nodes.{MayastorNexus}

-- The output of a command and its error.
pub record Exec : Type 0 where
  pub output : String
  pub error : Option String

-- `unicode.IsSpace`
unfoldable pub is_space : ℕ → Bool
is_space c =
    (leb 9 c && leb c 13)
    || eqb c 0x20
    || eqb c 0x85
    || eqb c 0xa0
    || eqb c 0x1680
    || (leb 0x2000 c && leb c 0x200a)
    || eqb c 0x2028
    || eqb c 0x2029
    || eqb c 0x202f
    || eqb c 0x205f
    || eqb c 0x3000

-- `strings.TrimSpace`: the spaces at the front and those at the end.
unfoldable pub trim_left : String → String
trim_left String.[] = ""
trim_left (String.◌∷◌ c s) =
    let rest = trim_left s in if is_space (code c) then rest else String.◌∷◌ c s

unfoldable pub push_unless_space : ℕ → String → String → String
push_unless_space c s String.[] = if is_space c then "" else s
push_unless_space c s (String.◌∷◌ d t) = s

unfoldable pub trim_right : String → String
trim_right String.[] = ""
trim_right (String.◌∷◌ c s) =
    let rest = trim_right s in push_unless_space (code c) (String.◌∷◌ c rest) rest

unfoldable pub trim_space : String → String
trim_space s = trim_right (trim_left s)

-- The text from the first occurrence of another on.
unfoldable pub from_first : String → String → Option String
from_first s String.[] = if has_prefix s "" then some "" else none
from_first s (String.◌∷◌ c t) =
    let rest = from_first s t in
    if has_prefix s (String.◌∷◌ c t) then some (String.◌∷◌ c t) else rest

-- The name of the target in an address: from "nqn." up to the first question mark. Where one of them is
-- missing the index is -1.
unfoldable pub nqn_of : String → Outcome String
nqn_of uri = elim (from_first "nqn." uri) [
  | none ↦ panic
  | some long ↦ if contains long "?" then ok (before b'?' long) else panic
]

-- `s[n:]`
unfoldable pub drop_text : ℕ → String → Outcome String
drop_text zero s = ok s
drop_text (suc n) String.[] = panic
drop_text (suc n) (String.◌∷◌ c s) = drop_text n s

-- What json.Unmarshal makes of the output of `nvme list`: the paths of the devices, "" for one that has
-- none, as far as it decodes, and the error.
pub record Decoded : Type 0 where
  pub devices : List String
  pub error : Option String

unfoldable pub last_of : List String → Option String
last_of [] = none
last_of (d ∷ []) = some d
last_of (d ∷ e ∷ ds) = last_of (e ∷ ds)

-- The last device: its path, and the path without "/dev/".
unfoldable pub last_device : List String → Outcome (String × String)
last_device devices = elim (last_of devices) [
  | none ↦ panic
  | some path ↦ elim (drop_text 5 path) [
    | ok name ↦ ok (path, name)
    | err e ↦ err e
    | panic ↦ panic
  ]
]

-- ChecksumReplica: one round of the search. `none` is a round that finds no device: an output that
-- decodes without an error is one.
unfoldable pub find_device : (String → Decoded) → Exec → Option (Outcome (String × String))
find_device decode x = if x.output == "" then none else elim x.error [
  | some e ↦ none
  | none ↦ elim (decode x.output).error [
    | none ↦ none
    | some e ↦ some (last_device (decode x.output).devices)
  ]
]

-- ChecksumReplica: the rounds of the search.
unfoldable pub device_rounds :
    (String → Decoded) → (left n : ℕ) → (ℕ → Exec) → Outcome (String × String)
device_rounds decode zero n answer = err "Failed to get device path"
device_rounds decode (suc left) n answer =
    let rest = device_rounds decode left (suc n) answer in
    elim (find_device decode (answer n)) [ none ↦ rest | some found ↦ found ]

-- What runs on the node in ChecksumReplica: the command that connects takes the name of the target and
-- the address, that of the checksum the path of the device.
pub record Node : Type 0 where
  pub connect : String → String → Exec
  pub list : ℕ → Exec
  pub checksum : String → Exec
  pub disconnect : String → Exec
  pub devices : Exec

-- ChecksumReplica, from the checksum on.
unfoldable pub checksum_device : Node → (nqn path name : String) → Outcome String
checksum_device node nqn path name =
    let sum = node.checksum path in
    let text = trim_space sum.output in
    elim sum.error [
      | some e ↦ err e
      | none ↦
          if contains text name
          then (elim (node.disconnect nqn).error [
            | some e ↦ err e
            | none ↦ elim node.devices.error [
              | some e ↦ err e
              | none ↦
                  if contains node.devices.output name
                  then err (concat ("Device " ∷ name ∷ " still exists" ∷ []))
                  else ok text
            ]
          ])
          else err (concat ("Unexpected result from cksum " ∷ text ∷ []))
    ]

-- ChecksumReplica, once the target is connected.
unfoldable pub checksum_connected : (String → Decoded) → Node → ℕ → String → Outcome String
checksum_connected decode node max_retries nqn =
    elim (device_rounds decode max_retries 0 node.list) [
      | err e ↦ err e
      | panic ↦ panic
      | ok found ↦ checksum_device node nqn found.0 found.1
    ]

-- ChecksumReplica
unfoldable pub checksum_replica :
    (String → Decoded) → Node → (target_ip uri : String) → ℕ → Outcome String
checksum_replica decode node target_ip uri max_retries = elim (nqn_of uri) [
  | err e ↦ err e
  | panic ↦ panic
  | ok nqn ↦
      let connected = node.connect nqn target_ip in
      let said = trim_space connected.output in
      elim connected.error [
        | some e ↦ err e
        | none ↦
            if said == ""
            then checksum_connected decode node max_retries nqn
            else err (concat ("nvme connect returned with " ∷ said ∷ []))
      ]
]
