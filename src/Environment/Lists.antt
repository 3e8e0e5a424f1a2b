-- ===== src/Environment/Lists.antt =====
-- The enumerations of the environment: the list of libuv is given back once on every path.
use moe_uv.Base.{
  ◌≢◌, ◌⊎◌, inl, inr, Bool-cases, subst, ◌≡◌, refl, Bool, false, List, [], ◌∷◌, ◌++◌, arith, ℤ,
  is_negative, if◌then◌else◌, append_assoc, append-nil, sym, map, ap, true,
}
use moe_uv.Environment.{
  enum_loop, enumerate, RawInterface, InterfaceInfo, interface_info, wanted_interface, known_family,
  enum_interface, RawCpu, CpuInfo, cpu_info, enum_cpu_info,
}
use moe_uv.EndPoint.{Families, Storage}

module _ {R A : Type 0} (wanted : R → Bool) (convert : R → A) where
  -- The entries that are wanted, converted, in order.
  unfoldable pub selected : List R → List A
  selected [] = []
  selected (t ∷ list) = if wanted t then convert t ∷ selected list else selected list

  module _ (room : List A → Bool) where
    enum_loop-frees :
        (list : List R) (info : List A) → (enum_loop wanted convert room list info).frees ≡ 1
    unfolding enum_loop
    enum_loop-frees [] info = refl
    enum_loop-frees (t ∷ list) info =
        ground (arith, enum_loop-frees list info, enum_loop-frees list (info ++ convert t ∷ []))

    enum_loop-selected :
        (list : List R) (info : List A)
        → (enum_loop wanted convert room list info).threw ≡ false
        → (enum_loop wanted convert room list info).info ≡ info ++ selected list
    unfolding enum_loop selected
    enum_loop-selected [] info h = sym (append-nil info)
    enum_loop-selected (t ∷ list) info h = ground (
      arith,
      enum_loop-selected list info,
      enum_loop-selected list (info ++ convert t ∷ []),
      append_assoc info (convert t ∷ []) (selected list),
    )

-- An entry of the vector, field by field.
pub record Describes (t : RawInterface) (info : InterfaceInfo) : Type 0 where
  pub same_name : info.name ≡ t.name
  pub same_physics : info.physics_address ≡ t.phys_addr
  pub same_address : info.address ≡ t.address
  pub same_mask : info.net_mask ≡ t.netmask
  pub is_internal : t.is_internal ≢ 0 → info.internal ≡ true
  pub is_external : t.is_internal ≡ 0 → info.internal ≡ false

module _ (os : Families) where
  abbrev pub Known : Storage → Type 0
  Known e = (e.ss_family ≡ os.af_inet) ⊎ (e.ss_family ≡ os.af_inet6)

  -- The entries of the vector are those of the list with both addresses of a known family, in order.
  pub data Selects : List RawInterface → List InterfaceInfo → Type 0 where
    ended : Selects [] []
    taken :
        {list : List RawInterface} {infos : List InterfaceInfo} (t : RawInterface)
        (info : InterfaceInfo)
        → Known t.address
        → Known t.netmask
        → Describes t info
        → Selects list infos
        → Selects (t ∷ list) (info ∷ infos)
    skipped :
        {list : List RawInterface} {infos : List InterfaceInfo} (t : RawInterface)
        → (Known t.address × Known t.netmask → ⊥)
        → Selects list infos
        → Selects (t ∷ list) infos

  Known-known_family : (e : Storage) → known_family os e ≡ true → Known e
  Known-known_family e h = ground arith

  known_family-Known : (e : Storage) → Known e → known_family os e ≡ true
  known_family-Known e h = ground arith

  interface_info-Describes : (t : RawInterface) → Describes t (interface_info t)
  interface_info-Describes t = record {
    same_name = refl;
    same_physics = refl;
    same_address = refl;
    same_mask = refl;
    is_internal = λ ne. ground (arith, ne);
    is_external = λ e. ground (arith, e);
  }

  selected-Selects :
      (list : List RawInterface) → Selects list (selected (wanted_interface os) interface_info list)
  unfolding selected
  selected-Selects [] = ended
  selected-Selects (t ∷ list) = elim (Bool-cases (wanted_interface os t)) [
    | inl both ↦ rw both (
        taken t (interface_info t) (Known-known_family t.address (ground (arith, both)))
          (Known-known_family t.netmask (ground (arith, both))) (interface_info-Describes t)
          (selected-Selects list))
    | inr other ↦ rw other (
        skipped t
          (λ known. ground (
            arith,
            other,
            known_family-Known t.address known.0,
            known_family-Known t.netmask known.1,
          ))
          (selected-Selects list))
  ]

module _ (os : Families) (room : List InterfaceInfo → Bool) (status : ℤ)
    (list : List RawInterface) where
  -- EnumInterface gives the list back to libuv exactly once if libuv made one, also where an exception
  -- goes on to the caller, and never if the listing failed.
  pub enum_interface-frees :
      (enum_interface os room status list).frees ≡ (if is_negative status then 0 else 1)
  unfolding enum_interface enumerate
  enum_interface-frees =
      ground (arith, enum_loop-frees (wanted_interface os) interface_info room list [])

  -- Where EnumInterface does not throw, the vector holds, in libuv's order, an entry for each entry of
  -- the list whose address and mask both are of a known family, with the name, the addresses and the mask
  -- of that entry, and internal exactly if that is.
  pub enum_interface-Selects :
      (enum_interface os room status list).threw ≡ false
      → Selects os list (enum_interface os room status list).info
  unfolding enum_interface enumerate
  enum_interface-Selects h =
      subst (Selects os list)
        (ground (arith, enum_loop-selected (wanted_interface os) interface_info room list []))
        (selected-Selects os list)

module _ (room : List CpuInfo → Bool) (status : ℤ) (list : List RawCpu) where
  selected_all : (l : List RawCpu) → selected (λ t. true) cpu_info l ≡ map cpu_info l
  unfolding selected
  selected_all [] = refl
  selected_all (t ∷ l) = ap (◌∷◌ (cpu_info t)) (selected_all l)

  -- Where EnumCpuInfo does not throw, it returns one entry for each processor, in order, and the list
  -- was given back to libuv exactly once.
  pub enum_cpu_info-map :
      (enum_cpu_info room status list).threw ≡ false
      → ((enum_cpu_info room status list).info ≡ map cpu_info list)
        × ((enum_cpu_info room status list).frees ≡ 1)
  unfolding enum_cpu_info enumerate
  enum_cpu_info-map h = (
    ground (arith, enum_loop-selected (λ t. true) cpu_info room list [], selected_all list),
    ground (arith, enum_loop-frees (λ t. true) cpu_info room list []),
  )
