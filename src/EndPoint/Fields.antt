-- ===== src/EndPoint/Fields.antt =====
-- The fields of an end point: what is set is read back, and the other fields stay.
use moe_uv.Base.{
  ℕ, zero, suc, ◌+◌, ◌/◌, ◌%◌, ◌^◌, ◌<◌, ◌≡◌, refl, ◌⊎◌, List, [], ◌∷◌, arith, ap, sym, ◌∙◌, true,
  drop, get_or,
}
use moe_uv.EndPoint.{
  Families, Storage, store_in, make_in, join_bytes, is_ipv4, get_port, set_port, get_address_ipv4,
  get_address_ipv4_bytes, set_address_ipv4, set_address_ipv4_bytes, read_pieces, get_address_ipv6,
  byte_at,
}

get_or-drop : (n i : ℕ) (xs : List ℕ) → get_or (drop n xs) i 0 ≡ get_or xs (n + i) 0
get_or-drop zero i xs = (let q : i ≡ zero + i = omega arith in ap (λ k. get_or xs k 0) q)
get_or-drop (suc n) i [] = refl
get_or-drop (suc n) i (x ∷ xs) =
    get_or-drop n i xs
    ∙ (let q : suc (n + i) ≡ suc n + i = omega arith in ap (λ k. get_or (x ∷ xs) k 0) q)

behind_port :
    (p q : ℕ) (e f : Storage) (i : ℕ)
    → f.bytes ≡ p ∷ q ∷ drop 2 e.bytes
    → byte_at f (i + 2) ≡ byte_at e (i + 2)
behind_port p q e f i h =
    let swap : i + 2 ≡ suc (suc i) = omega arith in
    let shift : i + 2 ≡ 2 + i = omega arith in
    rw (h) (rw swap (get_or-drop 2 i e.bytes ∙ ap (λ k. get_or e.bytes k 0) (sym shift ∙ swap)))

read_pieces-set_port :
    (p q : ℕ) (e f : Storage) (count i : ℕ)
    → f.bytes ≡ p ∷ q ∷ drop 2 e.bytes
    → read_pieces count (i + 2) f ≡ read_pieces count (i + 2) e
unfolding read_pieces
read_pieces-set_port p q e f zero i h = refl
read_pieces-set_port p q e f (suc count) i h = ground (
  arith,
  behind_port p q e f i h,
  behind_port p q e f (i + 1) h,
  read_pieces-set_port p q e f count (i + 2) h,
)

module _ (os : Families) where
  open os use {af_inet, af_inet6}

  -- SetAddressIpv4 makes the end point an IPv4 one with that address, and keeps the port that it had,
  -- whatever its family was and whatever else its storage held.
  pub set_address_ipv4-fields :
      (addr : ℕ) (e : Storage)
      → addr < 2 ^ 32
      → get_port os e < 2 ^ 16
      → (is_ipv4 os (set_address_ipv4 os addr e) ≡ true)
        × (get_address_ipv4 os (set_address_ipv4 os addr e) ≡ addr)
        × (get_port os (set_address_ipv4 os addr e) ≡ get_port os e)
  unfolding is_ipv4 get_address_ipv4 set_address_ipv4 store_in make_in
  set_address_ipv4-fields addr e ha hp =
      (ground arith, ground arith, get_port-store_in addr (get_port os e) e hp)
    where
      get_port-store_in :
          (a p : ℕ) (raw : Storage) → p < 2 ^ 16 → get_port os (store_in (make_in os a p) raw) ≡ p
      get_port-store_in a p raw h = unfold get_port in ground arith

  -- The four bytes given to SetAddressIpv4 are the bytes that GetAddressIpv4 gives back.
  pub get_address_ipv4_bytes-set :
      (a b c d : ℕ) (e : Storage)
      → a < 256
      → b < 256
      → c < 256
      → d < 256
      → get_address_ipv4_bytes os (set_address_ipv4_bytes os (a ∷ b ∷ c ∷ d ∷ []) e)
        ≡ a ∷ b ∷ c ∷ d ∷ []
  unfolding get_address_ipv4_bytes set_address_ipv4_bytes get_address_ipv4 join_bytes store_in
      make_in
  get_address_ipv4_bytes-set a b c d e ha hb hc hd = ground arith

  -- SetPort of an IPv4 or IPv6 end point changes the port alone: family and address stay.
  pub set_port-fields :
      (port : ℕ) (e : Storage)
      → (e.ss_family ≡ af_inet) ⊎ (e.ss_family ≡ af_inet6)
      → port < 2 ^ 16
      → (get_port os (set_port os port e) ≡ port)
        × ((set_port os port e).ss_family ≡ e.ss_family)
        × (get_address_ipv4 os (set_port os port e) ≡ get_address_ipv4 os e)
        × (get_address_ipv6 os (set_port os port e) ≡ get_address_ipv6 os e)
  unfolding get_port set_port get_address_ipv4 get_address_ipv6
  set_port-fields port e known hp = (
    ground arith,
    ground arith,
    ground (
      arith,
      get_or-drop 2 0 e.bytes,
      get_or-drop 2 1 e.bytes,
      get_or-drop 2 2 e.bytes,
      get_or-drop 2 3 e.bytes,
    ),
    ground (
      arith,
      read_pieces-set_port (port / 256 % 256) (port % 256) e
          (record e { bytes = (port / 256 % 256) ∷ (port % 256) ∷ drop 2 e.bytes }) 8 4 refl,
    ),
  )

  -- SetPort of an IPv4 or IPv6 end point sets the port and changes neither family nor address;
  -- SetAddressIpv4 of any end point sets the address, makes it an IPv4 one, and keeps the port.
  pub setters-fields :
      (port addr : ℕ) (e f : Storage)
      → (e.ss_family ≡ af_inet) ⊎ (e.ss_family ≡ af_inet6)
      → port < 2 ^ 16
      → addr < 2 ^ 32
      → get_port os f < 2 ^ 16
      → ((get_port os (set_port os port e) ≡ port)
          × ((set_port os port e).ss_family ≡ e.ss_family)
          × (get_address_ipv4 os (set_port os port e) ≡ get_address_ipv4 os e)
          × (get_address_ipv6 os (set_port os port e) ≡ get_address_ipv6 os e))
        × ((is_ipv4 os (set_address_ipv4 os addr f) ≡ true)
            × (get_address_ipv4 os (set_address_ipv4 os addr f) ≡ addr)
            × (get_port os (set_address_ipv4 os addr f) ≡ get_port os f))
  setters-fields port addr e f known hp ha hf =
      (set_port-fields port e known hp, set_address_ipv4-fields addr f ha hf)
