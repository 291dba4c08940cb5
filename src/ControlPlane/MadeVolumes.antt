-- ===== src/ControlPlane/MadeVolumes.antt =====
-- The volume that GetMSV (src/common/controlplane/v1/msv_cp.go) makes of what the plugin and the nodes
-- say of it.
use mayastor_e2e.Prelude.{
  ◌≡◌, refl, ap, ◌∙◌, ◌>>=◌, ◌≢◌, String, List, [], ◌∷◌, ◌++◌, map, Option, none, some, Outcome, ok,
  err, false, not, ℤ, below_one, text_ne, All,
}
use mayastor_e2e.Types.{MayastorVolume, NexusChild, Replica}
use mayastor_e2e.ControlPlane.Plugin.{Plugin}
use mayastor_e2e.ControlPlane.Volumes.{
  MayastorCpVolume, MayastorCpReplica, ReplicaTopology, Children, lower_is, nexus_children,
  replica_of, replicas_of, volume_with, cp_volume_to_msv, no_volume,
}
use mayastor_e2e.ControlPlane.Volumes.Queries.{get_mayastor_cp_volume, msv_of, get_msv}

-- The replica as the node's server describes it: offline where the state is not "online", in letters of
-- either case.
abbrev pub Describes : MayastorCpReplica → Replica → Type 0
Describes x r =
    (r.uri ≡ x.uri)
    × (r.node ≡ x.node)
    × (r.pool ≡ x.pool)
    × (r.offline ≡ not (lower_is x.state "online"))

-- The replicas, one for each entry of the topology, in its order, each read under the entry's uuid.
abbrev pub ReadFrom :
    (String → Outcome MayastorCpReplica) → List (String × ReplicaTopology) → List Replica → Type 0
ReadFrom get [] [] = Unit
ReadFrom get [] (r ∷ rs) = ⊥
ReadFrom get (e ∷ es) [] = ⊥
ReadFrom get (e ∷ es) (r ∷ rs) =
    ((x : MayastorCpReplica) × (get e.0 ≡ ok x) × Describes x r) × ReadFrom get es rs

-- What the volume has of the control plane's, beside its replicas.
abbrev pub MadeFrom : MayastorCpVolume → MayastorVolume → Type 0
MadeFrom v msv =
    ((msv.name ≡ v.spec.uuid)
      × (msv.spec.protocol ≡ v.spec.target.protocol)
      × (msv.spec.replica_count ≡ v.spec.num_replicas)
      × (msv.spec.required_bytes ≡ v.spec.size)
      × (msv.status.size ≡ v.state.size)
      × (msv.status.state ≡ v.state.status))
    × ((msv.status.nexus.device_uri ≡ v.state.target.device_uri)
        × (msv.status.nexus.node ≡ v.state.target.node)
        × (msv.status.nexus.state ≡ v.state.target.state)
        × (msv.status.nexus.uuid ≡ v.state.target.uuid)
        × (map {B = String × String} (λ (c : NexusChild). (c.state, c.uri))
              msv.status.nexus.children
            ≡ map {B = String × String} (λ (c : Children). (c.state, c.uri))
                v.state.target.children))

-- The server of some node gives the entry's replica.
abbrev pub IsReadable : (String → Outcome MayastorCpReplica) → String × ReplicaTopology → Type 0
IsReadable get e = (x : MayastorCpReplica) × (get e.0 ≡ ok x)

nexus_children-map :
    (cs : List Children)
    → map {B = String × String} (λ (c : NexusChild). (c.state, c.uri)) (nexus_children cs)
      ≡ map {B = String × String} (λ (c : Children). (c.state, c.uri)) cs
unfolding nexus_children
nexus_children-map [] = refl
nexus_children-map (c ∷ cs) = ap (λ l. (c.state, c.uri) ∷ l) (nexus_children-map cs)

volume_with-MadeFrom : (v : MayastorCpVolume) (rs : List Replica) → MadeFrom v (volume_with v rs)
unfolding volume_with
volume_with-MadeFrom v rs = (
  (refl, refl, refl, refl, refl, refl),
  (refl, refl, refl, refl, nexus_children-map v.state.target.children),
)

replica_of-Describes : (x : MayastorCpReplica) → Describes x (replica_of x)
unfolding replica_of
replica_of-Describes x = (refl, refl, refl, refl)

module _ (get : String → Outcome MayastorCpReplica) where
  replicas_of-All :
      (es : List (String × ReplicaTopology))
      → All (IsReadable get) es
      → (rs : List Replica) × (replicas_of get es ≡ ok (some rs)) × ReadFrom get es rs
  unfolding replicas_of
  replicas_of-All [] h = ([], refl, tt)
  replicas_of-All ((uuid, t) ∷ es) h =
      let (x, q) = h.0 in
      let (rs, r, read) = replicas_of-All es h.1 in
      (replica_of x ∷ rs, rw (replicas_of, q, r) refl, ((x, q, replica_of-Describes x), read))

  -- An entry that is not read, after others that are.
  replicas_of-broken :
      (before after : List (String × ReplicaTopology)) (uuid e : String) (t : ReplicaTopology)
      → All (IsReadable get) before
      → get uuid ≡ err e
      → replicas_of get (before ++ ((uuid, t) ∷ after)) ≡ ok none
  unfolding replicas_of
  replicas_of-broken [] after uuid e t h q = rw (replicas_of, q) refl
  replicas_of-broken ((u, s) ∷ before) after uuid e t h q =
      let (x, a) = h.0 in rw (replicas_of, a, replicas_of-broken before after uuid e t h.1 q) refl

  get_msv_made :
      (json : String → Option MayastorCpVolume) (print_state : MayastorCpVolume → String)
      (print_count : ℤ → String) (plugin : Plugin) (uuid : String) (v : MayastorCpVolume)
      → get_mayastor_cp_volume json plugin uuid ≡ ok v
      → v.spec.uuid ≢ ""
      → v.state.status ≢ "pending"
      → v.state.status ≢ ""
      → below_one v.spec.num_replicas ≡ false
      → get_msv json get print_state print_count plugin uuid
        ≡ (cp_volume_to_msv get v >>= λ msv. ok (some msv))
  unfolding get_msv msv_of
  get_msv_made json print_state print_count plugin uuid v answer named there stated count =
      rw
        (
          get_msv,
          answer,
          msv_of,
          text_ne v.spec.uuid "" named,
          text_ne v.state.status "pending" there,
          text_ne v.state.status "" stated,
          count,
        )
        refl

  -- GetMSV of a volume that the plugin gives, with a uuid, a state that is neither pending nor empty,
  -- and at least one replica. Where each replica of its topology can be read, it is a volume with the
  -- control plane's name, sizes, states and target, and with the replicas that were read, one for each
  -- entry, in the order of the topology. Where the first that cannot be read gives an error, it is the
  -- empty volume, with no error.
  pub get_msv_lem :
      (json : String → Option MayastorCpVolume) (print_state : MayastorCpVolume → String)
      (print_count : ℤ → String) (plugin : Plugin) (uuid : String) (v : MayastorCpVolume)
      → get_mayastor_cp_volume json plugin uuid ≡ ok v
      → v.spec.uuid ≢ ""
      → v.state.status ≢ "pending"
      → v.state.status ≢ ""
      → below_one v.spec.num_replicas ≡ false
      → (All (IsReadable get) v.state.replica_topology
          → (msv : MayastorVolume) × (get_msv json get print_state print_count plugin uuid
              ≡ ok (some msv))
            × MadeFrom v msv
            × ReadFrom get v.state.replica_topology msv.status.replicas)
        × ((before after : List (String × ReplicaTopology)) (u e : String) (t : ReplicaTopology)
            → v.state.replica_topology ≡ before ++ ((u, t) ∷ after)
            → All (IsReadable get) before
            → get u ≡ err e
            → get_msv json get print_state print_count plugin uuid ≡ ok (some no_volume))
  unfolding cp_volume_to_msv volume_with
  get_msv_lem json print_state print_count plugin uuid v answer named there stated count =
      let made =
        get_msv_made json print_state print_count plugin uuid v answer named there stated count in
      (
        λ all.
            let (rs, q, read) = replicas_of-All v.state.replica_topology all in
            (
              volume_with v rs,
              made ∙ rw (cp_volume_to_msv, q) refl,
              volume_with-MadeFrom v rs,
              read,
            ),
        λ before after u e t split all q.
            let r = ap (replicas_of get) split ∙ replicas_of-broken before after u e t all q in
            made ∙ rw (cp_volume_to_msv, r) refl,
      )
