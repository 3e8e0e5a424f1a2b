-- ===== src/Dns.antt =====
-- src/Dns.cpp: what happens when getaddrinfo and getnameinfo report their results.
-- A callback's work is the list of what it does, in order: it calls the user's callback and gives the
-- address list back to libuv. The null reference that stands for no result is `none`.
pub mod Collect
pub mod Actions
pub mod Requests
mod Tests
use moe_uv.Base.{
  ℕ, zero, suc, Bool, true, false, not, ◌||◌, List, [], ◌∷◌, ◌++◌, Option, none, some, ◌==◌,
  if◌then◌else◌, ℤ, pos, is_zero, is_empty_list,
}
use moe_uv.EndPoint.{Families, Storage, any_address, equals, from_sockaddr_in}

-- An entry of the address list: its family, and the memory that `ai_addr` points to.
pub record Node : Type 0 where
  pub ai_family : ℕ
  pub ai_addr : Storage

pub data Action : Type 0 where
  resolve_one : ℤ → Option Storage → Action
  resolve_all : ℤ → Option (List Storage) → Action
  reverse_resolve : ℤ → Option (List ℕ × List ℕ) → Action
  free_addrinfo : Action

-- The end of the loop over the list: the last end point and the results, or a failed push_back.
pub data Collected : Type 0 where
  done : Storage → List Storage → Collected
  no_memory : Collected

-- `if (res) uv_freeaddrinfo(res);`
abbrev pub free_list : List Node → List Action
free_list [] = []
free_list (n ∷ ns) = free_addrinfo ∷ []

-- OnResolveAll is called with no test: an empty function throws, which is caught, and nobody is called.
unfoldable pub call_all : Bool → ℤ → Option (List Storage) → List Action
call_all every status result = if every then resolve_all status result ∷ [] else []

-- What follows the loop; after a failed push_back, the catch block calls, frees and returns by itself.
unfoldable pub after_loop : Bool → Bool → ℤ → List Node → Collected → List Action
after_loop one every enomem res no_memory = call_all every enomem none ++ free_list res
after_loop one every enomem res (done ep result) =
    (if one then resolve_one (pos 0) (some ep) ∷ [] else call_all every (pos 0) (some result))
    ++ free_list res

module _ (os : Families) where
  -- The loop that looks for `ep` among the results.
  unfoldable pub contains : Storage → List Storage → Bool
  contains ep [] = false
  contains ep (st ∷ result) = equals os st ep || contains ep result

module _ (os : Families) where
  open os use {af_inet, af_inet6}

  -- `ep` for a node, in a new object with the bytes `raw`; both branches read the address as a sockaddr_in,
  -- and a node of another family leaves `ep` as it was.
  unfoldable pub node_end_point : Storage → Node → Storage → Storage
  node_end_point raw node ep =
      if node.ai_family == af_inet
      then from_sockaddr_in node.ai_addr raw
      else if node.ai_family == af_inet6
      then from_sockaddr_in node.ai_addr raw
      else ep

  module _ (raw : List Node → Storage) where
    -- The loop over the nodes; `one` is whether OnResolveOne is set, and `room` whether a push_back
    -- onto these results finds memory. The round that begins at these nodes makes an end point in memory
    -- that holds the bytes `raw` of them.
    unfoldable pub collect :
        Bool → (List Storage → Bool) → List Node → Storage → List Storage → Collected
    collect one room [] ep result = done ep result
    collect one room (node ∷ nodes) ep result =
        let next = node_end_point (raw (node ∷ nodes)) node ep in
        let skip = collect one room nodes next result in
        let keep = collect one room nodes next (result ++ next ∷ []) in
        if one
        then done next result
        else if contains os next result
        then skip
        else if room result
        then keep
        else no_memory

    -- UVGetAddrInfoReq::Callback; `one` and `every` are whether the two functions are set.
    unfoldable pub addr_info_callback :
        Bool → Bool → (List Storage → Bool) → ℤ → ℤ → List Node → List Action
    addr_info_callback one every room enomem status res =
        if not (is_zero status)
        then (if one then resolve_one status none ∷ [] else call_all every status none)
          ++ free_list res
        else after_loop one every enomem res (collect one room res (any_address os (raw [])) [])

-- UVGetNameInfoReq::Callback; `set` is whether the user gave a callback.
unfoldable pub name_info_callback : Bool → ℤ → List ℕ → List ℕ → List Action
name_info_callback set status hostname service =
    if not set
    then []
    else if not (is_zero status)
    then reverse_resolve status none ∷ []
    else reverse_resolve (pos 0) (some (hostname, service)) ∷ []
