-- ===== src/EndPoint.antt =====
-- src/EndPoint.cpp and include/Moe.UV/EndPoint.hpp: an IPv4 or IPv6 end point over sockaddr_storage.
-- The storage is the family and the bytes behind it, in the POSIX layout: the port is bytes 0 and 1,
-- an IPv4 address bytes 2 to 5 and its padding 6 to 13, an IPv6 flow label bytes 2 to 5, its address
-- 6 to 21 and its scope 22 to 25. htons and htonl put the most significant byte first. An assert is
-- read as in a release build. A constructor takes what the uninitialised storage happens to hold.
pub mod Fields
pub mod Equality
pub mod Address
mod Tests
use moe_uv.Base.{
  ℕ, zero, suc, ◌+◌, ◌*◌, ◌/◌, ◌%◌, ◌^◌, ◌≢◌, Bool, true, false, not, ◌&&◌, List, [], ◌∷◌, ◌++◌,
  some, none, ◌==◌, if◌then◌else◌, get_or, take, drop, replicate,
}
use moe_uv.Core.{MoeCore}
use moe_uv.Ipv4.{parse_ipv4}
use moe_uv.Ipv6.{Parse, parsed, rejected, fault, exhausted, parse_ipv6}
use moe_uv.Outcome.{Outcome, ok, throw, bad_format, ◌>>=◌}
use moe_uv.Text.{ipv4_text, ipv6_text}

-- The address families of the platform's headers.
pub record Families : Type 0 where
  pub af_inet : ℕ
  pub af_inet6 : ℕ
  pub af_inet_ne : af_inet ≢ af_inet6

pub record Storage : Type 0 where
  pub ss_family : ℕ
  pub bytes : List ℕ

pub record SockaddrIn : Type 0 where
  pub sin_family : ℕ
  pub sin_port : List ℕ
  pub sin_addr : List ℕ
  pub sin_zero : List ℕ

pub record SockaddrIn6 : Type 0 where
  pub sin6_family : ℕ
  pub sin6_port : List ℕ
  pub sin6_flowinfo : List ℕ
  pub sin6_addr : List ℕ
  pub sin6_scope_id : List ℕ

-- The bytes that htons and htonl leave in memory, and the number that ntohs and ntohl read there.
abbrev pub htons : ℕ → List ℕ
htons n = (n / 256 % 256) ∷ (n % 256) ∷ []

abbrev pub htonl : ℕ → List ℕ
htonl n = (n / 2 ^ 24 % 256) ∷ (n / 2 ^ 16 % 256) ∷ (n / 2 ^ 8 % 256) ∷ (n % 256) ∷ []

abbrev pub byte_at : Storage → ℕ → ℕ
byte_at e i = get_or e.bytes i 0

-- `memcpy(&Storage, &v4, sizeof(v4))`, over what the storage held.
unfoldable pub store_in : SockaddrIn → Storage → Storage
store_in v4 raw = record {
  ss_family = v4.sin_family;
  bytes = v4.sin_port ++ (v4.sin_addr ++ (v4.sin_zero ++ drop 14 raw.bytes));
}

unfoldable pub store_in6 : SockaddrIn6 → Storage → Storage
store_in6 v6 raw = record {
  ss_family = v6.sin6_family;
  bytes =
      v6.sin6_port
      ++ (v6.sin6_flowinfo ++ (v6.sin6_addr ++ (v6.sin6_scope_id ++ drop 26 raw.bytes)));
}

-- EndPoint(const sockaddr_in&), EndPoint(const sockaddr_in6&) and EndPoint(const sockaddr_storage&):
-- 16, 28 or all bytes of the address are copied over uninitialised storage.
unfoldable pub from_sockaddr_in : Storage → Storage → Storage
from_sockaddr_in addr raw = record {
  ss_family = addr.ss_family;
  bytes = take 14 addr.bytes ++ drop 14 raw.bytes;
}

unfoldable pub from_sockaddr_in6 : Storage → Storage → Storage
from_sockaddr_in6 addr raw = record {
  ss_family = addr.ss_family;
  bytes = take 26 addr.bytes ++ drop 26 raw.bytes;
}

unfoldable pub from_sockaddr_storage : Storage → Storage → Storage
from_sockaddr_storage storage raw = storage

unfoldable pub same_bytes : List ℕ → List ℕ → Bool
same_bytes [] [] = true
same_bytes [] (y ∷ ys) = false
same_bytes (x ∷ xs) [] = false
same_bytes (x ∷ xs) (y ∷ ys) = x == y && same_bytes xs ys

-- The bytes of an IPv6 address, two for each piece.
unfoldable pub split_pieces : List ℕ → List ℕ
split_pieces [] = []
split_pieces (s ∷ addr) = (s / 2 ^ 8 % 256) ∷ (s % 256) ∷ split_pieces addr

-- `(addr[0] << 24) | (addr[1] << 16) | (addr[2] << 8) | addr[3]` in uint32_t
unfoldable pub join_bytes : List ℕ → ℕ
join_bytes addr =
    (get_or addr 0 0 * 2 ^ 24
      + get_or addr 1 0 * 2 ^ 16
      + get_or addr 2 0 * 2 ^ 8
      + get_or addr 3 0)
    % 2 ^ 32

-- `count` pieces of two bytes each, from byte `i` on.
unfoldable pub read_pieces : ℕ → ℕ → Storage → List ℕ
read_pieces zero i e = []
read_pieces (suc count) i e =
    (byte_at e i * 2 ^ 8 % 2 ^ 16 + byte_at e (i + 1)) ∷ read_pieces count (i + 2) e

module _ (os : Families) where
  open os use {af_inet, af_inet6}

  unfoldable pub make_in : ℕ → ℕ → SockaddrIn
  make_in addr port = record {
    sin_family = af_inet;
    sin_port = htons port;
    sin_addr = htonl addr;
    sin_zero = replicate 8 0;
  }

  unfoldable pub make_in6 : List ℕ → ℕ → SockaddrIn6
  make_in6 addr port = record {
    sin6_family = af_inet6;
    sin6_port = htons port;
    sin6_flowinfo = replicate 4 0;
    sin6_addr = split_pieces addr;
    sin6_scope_id = replicate 4 0;
  }

  -- EndPoint() and EndPoint(uint32_t, uint16_t)
  unfoldable pub any_address : Storage → Storage
  any_address raw = store_in (make_in 0 0) raw

  unfoldable pub from_ipv4 : ℕ → ℕ → Storage → Storage
  from_ipv4 addr port raw = store_in (make_in addr port) raw

  -- EndPoint(const Ipv4AddressType&, uint16_t)
  unfoldable pub from_ipv4_bytes : List ℕ → ℕ → Storage → Storage
  from_ipv4_bytes addr port raw = store_in (make_in (join_bytes addr) port) raw

  -- EndPoint(const Ipv6AddressType&, uint16_t) fills its local `v6` and does not copy it out.
  unfoldable pub from_ipv6 : List ℕ → ℕ → Storage → Storage
  from_ipv6 addr port raw = let v6 = make_in6 addr port in raw

  unfoldable pub is_ipv4 : Storage → Bool
  is_ipv4 e = e.ss_family == af_inet

  unfoldable pub is_ipv6 : Storage → Bool
  is_ipv6 e = e.ss_family == af_inet6

  unfoldable pub get_port : Storage → ℕ
  get_port e =
      if e.ss_family == af_inet
      then byte_at e 0 * 256 + byte_at e 1
      else if e.ss_family == af_inet6
      then byte_at e 0 * 256 + byte_at e 1
      else 0

  unfoldable pub set_port : ℕ → Storage → Storage
  set_port port e =
      if e.ss_family == af_inet
      then record e { bytes = htons port ++ drop 2 e.bytes }
      else if e.ss_family == af_inet6
      then record e { bytes = htons port ++ drop 2 e.bytes }
      else e

  -- GetAddressIpv4()
  unfoldable pub get_address_ipv4 : Storage → ℕ
  get_address_ipv4 e =
      if not (e.ss_family == af_inet)
      then 0
      else byte_at e 2 * 2 ^ 24 + byte_at e 3 * 2 ^ 16 + byte_at e 4 * 2 ^ 8 + byte_at e 5

  -- GetAddressIpv4(Ipv4AddressType&)
  unfoldable pub get_address_ipv4_bytes : Storage → List ℕ
  get_address_ipv4_bytes e =
      let v4 = get_address_ipv4 e in
      (v4 / 2 ^ 24 % 256) ∷ (v4 / 2 ^ 16 % 256) ∷ (v4 / 2 ^ 8 % 256) ∷ (v4 % 256) ∷ []

  unfoldable pub set_address_ipv4 : ℕ → Storage → Storage
  set_address_ipv4 addr e = store_in (make_in addr (get_port e)) e

  unfoldable pub set_address_ipv4_bytes : List ℕ → Storage → Storage
  set_address_ipv4_bytes addr e = store_in (make_in (join_bytes addr) (get_port e)) e

  -- operator==: memcmp over the structure of the family.
  unfoldable pub equals : Storage → Storage → Bool
  equals e f =
      if not (e.ss_family == f.ss_family)
      then false
      else if e.ss_family == af_inet
      then same_bytes (take 14 e.bytes) (take 14 f.bytes)
      else if e.ss_family == af_inet6
      then same_bytes (take 26 e.bytes) (take 26 f.bytes)
      else same_bytes e.bytes f.bytes

  unfoldable pub differs : Storage → Storage → Bool
  differs e f = not (equals e f)

  unfoldable pub get_address_ipv6 : Storage → List ℕ
  get_address_ipv6 e = if not (e.ss_family == af_inet6) then replicate 8 0 else read_pieces 8 6 e

  -- SetAddressIpv6 fills its local `v6` and does not copy it into the storage.
  unfoldable pub set_address_ipv6 : List ℕ → Storage → Storage
  set_address_ipv6 addr e = let v6 = make_in6 addr (get_port e) in e

  module _ (core : MoeCore) where
    unfoldable pub get_address : Storage → List ℕ
    get_address e =
        if e.ss_family == af_inet
        then ipv4_text core (get_address_ipv4 e)
        else if e.ss_family == af_inet6
        then ipv6_text core (get_address_ipv6 e)
        else []

    abbrev pub store_parsed : Storage → Parse (List ℕ) → Outcome Storage
    store_parsed e (parsed v6) = ok (set_address_ipv6 v6 e)
    store_parsed e rejected = throw bad_format
    store_parsed e fault = throw bad_format
    store_parsed e exhausted = throw bad_format

    abbrev pub store_ipv4_or : List ℕ → Storage → Outcome Storage
    store_ipv4_or addr e = do
      v4 ← parse_ipv4 addr
      elim v4 [ some v ↦ ok (set_address_ipv4 v e) | none ↦ store_parsed e (parse_ipv6 core addr) ]

    -- SetAddress; the first exception leaves the end point as it was.
    unfoldable pub set_address : List ℕ → Storage → Outcome Storage
    set_address addr e = store_ipv4_or addr e

    -- EndPoint(ArrayView<char>, uint16_t), and the overloads for other texts
    unfoldable pub from_text : List ℕ → ℕ → Storage → Outcome Storage
    from_text addr port raw = set_address addr (store_in (make_in 0 port) raw)

    unfoldable pub to_string : Storage → List ℕ
    to_string e = core.format_pair (get_address e) (get_port e)
