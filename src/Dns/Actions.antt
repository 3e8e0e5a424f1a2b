-- ===== src/Dns/Actions.antt =====
-- What the callbacks of a resolution do: reports and releases; and the IPv6 addresses.
use moe_uv.Base.{
  ℕ, ◌+◌, ◌≡◌, ◌≤◌, ◌&&◌, ◌||◌, not, Bool, true, false, List, [], ◌∷◌, ◌++◌, Option, none, arith,
  take, drop, length, ℤ, is_zero, Bool-cases, inl, inr, if◌then◌else◌, is_empty_list, refl, zero,
  suc, ap, sym, ◌∙◌,
}
use moe_uv.Dns.{
  Node, Action, resolve_one, resolve_all, reverse_resolve, free_addrinfo, free_list, call_all,
  node_end_point, collect, Collected, done, no_memory, after_loop, addr_info_callback,
}
use moe_uv.EndPoint.{Families, Storage, from_sockaddr_in, any_address}

-- How often each function of the user is called, how often any is, and how often the list is released.
unfoldable pub count_one : List Action → ℕ
count_one [] = 0
count_one (resolve_one status ep ∷ rest) = count_one rest + 1
count_one (resolve_all status eps ∷ rest) = count_one rest
count_one (reverse_resolve status names ∷ rest) = count_one rest
count_one (free_addrinfo ∷ rest) = count_one rest

unfoldable pub count_all : List Action → ℕ
count_all [] = 0
count_all (resolve_one status ep ∷ rest) = count_all rest
count_all (resolve_all status eps ∷ rest) = count_all rest + 1
count_all (reverse_resolve status names ∷ rest) = count_all rest
count_all (free_addrinfo ∷ rest) = count_all rest

unfoldable pub count_reports : List Action → ℕ
count_reports [] = 0
count_reports (resolve_one status ep ∷ rest) = count_reports rest + 1
count_reports (resolve_all status eps ∷ rest) = count_reports rest + 1
count_reports (reverse_resolve status names ∷ rest) = count_reports rest + 1
count_reports (free_addrinfo ∷ rest) = count_reports rest

unfoldable pub count_frees : List Action → ℕ
count_frees [] = 0
count_frees (resolve_one status ep ∷ rest) = count_frees rest
count_frees (resolve_all status eps ∷ rest) = count_frees rest
count_frees (reverse_resolve status names ∷ rest) = count_frees rest
count_frees (free_addrinfo ∷ rest) = count_frees rest + 1

-- One call of the function that is set, none if none is, and one release of a list.
abbrev pub Once : Bool → Bool → List Node → List Action → Type 0
Once one every res acts =
    (count_one acts ≡ (if one then 1 else 0))
    × (count_all acts ≡ (if not one && every then 1 else 0))
    × (count_reports acts ≡ (if one || every then 1 else 0))
    × (count_frees acts ≡ (if is_empty_list res then 0 else 1))

-- The report of status and result that the code chooses.
report-Once :
    (one every : Bool) (status : ℤ) (ep : Option Storage) (result : Option (List Storage))
    (res : List Node)
    → Once one every res (
        (if one then resolve_one status ep ∷ [] else call_all every status result) ++ free_list res)
unfolding call_all count_one count_all count_reports count_frees
report-Once true true status ep result [] = (refl, refl, refl, refl)
report-Once true true status ep result (n ∷ ns) = (refl, refl, refl, refl)
report-Once true false status ep result [] = (refl, refl, refl, refl)
report-Once true false status ep result (n ∷ ns) = (refl, refl, refl, refl)
report-Once false true status ep result [] = (refl, refl, refl, refl)
report-Once false true status ep result (n ∷ ns) = (refl, refl, refl, refl)
report-Once false false status ep result [] = (refl, refl, refl, refl)
report-Once false false status ep result (n ∷ ns) = (refl, refl, refl, refl)

abbrev is_done : Collected → Bool
is_done (done ep result) = true
is_done no_memory = false

after_loop-Once :
    (one every : Bool) (enomem : ℤ) (res : List Node) (c : Collected)
    → (one ≡ true → is_done c ≡ true)
    → Once one every res (after_loop one every enomem res c)
unfolding after_loop
after_loop-Once one every enomem res (done ep result) found = report-Once one every _ _ _ res
after_loop-Once true every enomem res no_memory found = absurd (ground (arith, found refl))
after_loop-Once false every enomem res no_memory found =
    report-Once false every enomem none none res

module _ (os : Families) (raw : List Node → Storage) where
  -- With OnResolveOne, the loop pushes nothing, so it does not run out of memory.
  one_is_done :
      (room : List Storage → Bool) (res : List Node) (ep : Storage) (result : List Storage)
      → is_done (collect os raw true room res ep result) ≡ true
  unfolding collect
  one_is_done room [] ep result = refl
  one_is_done room (n ∷ ns) ep result = refl

  -- On every status, list and state of memory, the callback of getaddrinfo calls OnResolveOne exactly once
  -- if it is set, else OnResolveAll exactly once if that is set, and else nobody; and it releases the list
  -- exactly once if there is one.
  pub addr_info_callback-Once :
      (one every : Bool) (room : List Storage → Bool) (enomem status : ℤ) (res : List Node)
      → Once one every res (addr_info_callback os raw one every room enomem status res)
  unfolding addr_info_callback
  addr_info_callback-Once one every room enomem status res =
      let start = any_address os (raw []) in
      elim (Bool-cases (is_zero status)) [
        | inl good ↦ rw good (
            after_loop-Once one every enomem res (collect os raw one room res start [])
              λ set. rw set (one_is_done room res start []))
        | inr bad ↦ rw bad (report-Once one every status none none res)
      ]

take-take_append : (k : ℕ) (xs ys : List ℕ) → k ≤ length xs → take k (take k xs ++ ys) ≡ take k xs
take-take_append zero xs ys long = refl
take-take_append (suc k) [] ys long = absurd (omega (arith, long))
take-take_append (suc k) (x ∷ xs) ys long =
    ap (◌∷◌ x) (take-take_append k xs ys (omega (arith, long)))

drop-take_append : (k : ℕ) (xs ys : List ℕ) → k ≤ length xs → drop k (take k xs ++ ys) ≡ ys
drop-take_append zero xs ys long = refl
drop-take_append (suc k) [] ys long = absurd (omega (arith, long))
drop-take_append (suc k) (x ∷ xs) ys long = drop-take_append k xs ys (omega (arith, long))

module _ (os : Families) where
  reads_sockaddr_in :
      (raw : Storage) (n : Node) (ep : Storage)
      → n.ai_family ≡ os.af_inet6
      → node_end_point os raw n ep ≡ from_sockaddr_in n.ai_addr raw
  unfolding node_end_point
  reads_sockaddr_in raw n ep h = ground (arith, os.af_inet_ne)

  -- What the code reads of an IPv6 node is the family, the port, the flow label and the first eight bytes of
  -- the address: two nodes that agree in these give end points that agree in them too, and all that is
  -- behind them in either end point is what its memory held before, whatever the nodes hold there.
  pub node_end_point_truncates :
      (raw raw' : Storage) (m n : Node) (ep ep' : Storage)
      → m.ai_family ≡ os.af_inet6
      → n.ai_family ≡ os.af_inet6
      → m.ai_addr.ss_family ≡ n.ai_addr.ss_family
      → take 14 m.ai_addr.bytes ≡ take 14 n.ai_addr.bytes
      → 14 ≤ length m.ai_addr.bytes
      → 14 ≤ length n.ai_addr.bytes
      → ((node_end_point os raw m ep).ss_family ≡ (node_end_point os raw' n ep').ss_family)
        × (take 14 (node_end_point os raw m ep).bytes
            ≡ take 14 (node_end_point os raw' n ep').bytes)
        × (drop 14 (node_end_point os raw m ep).bytes ≡ drop 14 raw.bytes)
        × (drop 14 (node_end_point os raw' n ep').bytes ≡ drop 14 raw'.bytes)
  unfolding from_sockaddr_in
  node_end_point_truncates raw raw' m n ep ep' hm hn f t long long' =
      rw (reads_sockaddr_in raw m ep hm, reads_sockaddr_in raw' n ep' hn)
        (
          f,
          take-take_append 14 m.ai_addr.bytes (drop 14 raw.bytes) long
              ∙ t
              ∙ sym (take-take_append 14 n.ai_addr.bytes (drop 14 raw'.bytes) long'),
          drop-take_append 14 m.ai_addr.bytes (drop 14 raw.bytes) long,
          drop-take_append 14 n.ai_addr.bytes (drop 14 raw'.bytes) long',
        )
