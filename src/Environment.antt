-- ===== src/Environment.antt =====
-- src/Environment.cpp: texts and lists that are asked of the operating system through libuv.
-- A query of libuv is a function of the buffer's size, which returns the status, what the buffer
-- then holds, and the size that it reports. `uv_free_…` of a list is counted.
pub mod Texts
pub mod Usage
pub mod System
pub mod Lists
mod Tests
use moe_uv.Base.{
  ℕ, ◌+◌, ◌*◌, ◌/◌, ◌%◌, ◌^◌, Bool, true, false, not, ◌&&◌, ◌||◌, List, [], ◌∷◌, ◌++◌, ◌==◌,
  if◌then◌else◌, ℤ, is_negative, is_zero, eq_ℤ, length,
}
use moe_uv.EndPoint.{Families, Storage}
use moe_uv.Outcome.{Outcome, ok, throw, operation_cancelled, object_not_found, api_error, ◌>>=◌}

-- The status codes of uv.h that the functions compare with.
pub record Codes : Type 0 where
  pub uv_enobufs : ℤ
  pub uv_enoent : ℤ
  pub uv_ecanceled : ℤ

abbrev pub Query : Type 0
Query = ℕ → ℤ × List ℕ × ℕ

-- `result.resize(std::strlen(result.c_str()))`
unfoldable pub until_nul : List ℕ → List ℕ
until_nul [] = []
until_nul (c ∷ s) = if c == 0 then [] else c ∷ until_nul s

module _ (codes : Codes) where
  open codes use {uv_enobufs, uv_enoent, uv_ecanceled}

  -- MOE_UV_THROW and MOE_UV_CHECK
  abbrev pub throw_status {ℓ} : {A : Type ℓ} → ℤ → Outcome A
  throw_status status =
      if eq_ℤ status uv_ecanceled then throw operation_cancelled else throw (api_error status)

  abbrev pub check : ℤ → Outcome (Unit {0})
  check status = if is_negative status then throw_status status else ok tt

  -- The second call, with the size that the first one reported.
  abbrev pub second_call : ℤ × List ℕ × ℕ → Outcome (List ℕ)
  second_call (status, buffer, size) = do _ ← check status; ok (until_nul buffer)

  abbrev pub first_call : Query → ℤ × List ℕ × ℕ → Outcome (List ℕ)
  first_call query (status, buffer, size) =
      if eq_ℤ status uv_enobufs then second_call (query size) else ok (until_nul buffer)

  -- GetHostName, GetProcessExePath, GetWorkingDirectory, GetHomeDirectory and GetTempDirectory
  -- are this function at the libuv call that each makes; so are GetSockName and GetPeerName of Pipe.
  unfoldable pub get_host_name : Query → Outcome (List ℕ)
  get_host_name query = first_call query (query 256)

  unfoldable pub get_process_exe_path : Query → Outcome (List ℕ)
  get_process_exe_path query = first_call query (query 256)

  unfoldable pub get_working_directory : Query → Outcome (List ℕ)
  get_working_directory query = first_call query (query 256)

  unfoldable pub get_home_directory : Query → Outcome (List ℕ)
  get_home_directory query = first_call query (query 256)

  unfoldable pub get_temp_directory : Query → Outcome (List ℕ)
  get_temp_directory query = first_call query (query 256)

  abbrev pub env_call : Query → ℤ × List ℕ × ℕ → Outcome (List ℕ)
  env_call query (status, buffer, size) =
      if eq_ℤ status uv_enobufs
      then second_call (query size)
      else if eq_ℤ status uv_enoent
      then throw object_not_found
      else ok (until_nul buffer)

  -- GetEnvironment, with the query of uv_os_getenv for one name
  unfoldable pub get_environment : Query → Outcome (List ℕ)
  get_environment query = env_call query (query 64)

  -- SetEnvironment, by libuv's status
  unfoldable pub set_environment : ℤ → Outcome (Unit {0})
  set_environment status = check status

  unfoldable pub set_working_directory : ℤ → Outcome (Unit {0})
  set_working_directory status = check status

  -- DeleteEnvironment: a variable that is not there is no error.
  unfoldable pub delete_environment : ℤ → Outcome (Unit {0})
  delete_environment status =
      if eq_ℤ status uv_enoent
      then ok tt
      else if not (is_zero status)
      then throw_status status
      else ok tt

-- An entry of uv_interface_addresses, and InterfaceInfo.
pub record RawInterface : Type 0 where
  pub name : List ℕ
  pub phys_addr : List ℕ
  pub is_internal : ℕ
  pub address : Storage
  pub netmask : Storage

pub record InterfaceInfo : Type 0 where
  pub name : List ℕ
  pub physics_address : List ℕ
  pub internal : Bool
  pub address : Storage
  pub net_mask : Storage

abbrev pub interface_info : RawInterface → InterfaceInfo
interface_info t = record {
  name = t.name;
  physics_address = t.phys_addr;
  internal = not (t.is_internal == 0);
  address = t.address;
  net_mask = t.netmask;
}

-- What an enumeration leaves: the caller's vector, whether an exception goes on to the caller, and
-- how often the list was given back to libuv.
pub record Enumeration (A : Type 0) : Type 0 where
  pub info : List A
  pub threw : Bool
  pub frees : ℕ

module _ {R A : Type 0} (wanted : R → Bool) (convert : R → A) (room : List A → Bool) where
  -- The loop: `room` is whether copying and pushing the next entry finds memory; if not, the catch
  -- block frees the list and throws on.
  unfoldable pub enum_loop : List R → List A → Enumeration A
  enum_loop [] info = record { info = info; threw = false; frees = 1 }
  enum_loop (t ∷ list) info =
      let skip = enum_loop list info in
      let keep = enum_loop list (info ++ convert t ∷ []) in
      if not (wanted t)
      then skip
      else if room info
      then keep
      else record { info = info; threw = true; frees = 1 }

  -- The whole function, by the status of the listing call; `info` is cleared first.
  unfoldable pub enumerate : ℤ → List R → Enumeration A
  enumerate status list =
      if is_negative status
      then record { info = []; threw = true; frees = 0 }
      else enum_loop list []

-- An entry of uv_cpu_info, and CpuInfo.
pub record RawCpu : Type 0 where
  pub model : List ℕ
  pub speed : ℕ
  pub user : ℕ
  pub nice : ℕ
  pub sys : ℕ
  pub idle : ℕ
  pub irq : ℕ

pub record CpuInfo : Type 0 where
  pub model : List ℕ
  pub speed : ℕ
  pub cpu_times : List ℕ

abbrev pub cpu_info : RawCpu → CpuInfo
cpu_info t = record {
  model = t.model;
  speed = t.speed % 2 ^ 32;
  cpu_times = t.user ∷ t.nice ∷ t.sys ∷ t.idle ∷ t.irq ∷ [];
}

-- EnumCpuInfo
unfoldable pub enum_cpu_info : (List CpuInfo → Bool) → ℤ → List RawCpu → Enumeration CpuInfo
enum_cpu_info = enumerate (λ t. true) cpu_info

module _ (os : Families) where
  open os use {af_inet, af_inet6}

  abbrev pub known_family : Storage → Bool
  known_family e = e.ss_family == af_inet6 || e.ss_family == af_inet

  abbrev pub wanted_interface : RawInterface → Bool
  wanted_interface t = known_family t.address && known_family t.netmask

  -- EnumInterface
  unfoldable pub enum_interface :
      (List InterfaceInfo → Bool) → ℤ → List RawInterface → Enumeration InterfaceInfo
  enum_interface = enumerate wanted_interface interface_info
