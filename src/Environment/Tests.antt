-- ===== src/Environment/Tests.antt =====
-- The theorems on the environment, at sample answers of libuv.
use moe_uv.Base.{
  ◌≢◌, All, zero, suc, ℕ, ◌≡◌, refl, true, false, List, [], ◌∷◌, ◌++◌, pos, negsuc, arith, ltb,
  if◌then◌else◌, replicate,
}
use moe_uv.EndPoint.{Families}
use moe_uv.Environment.{
  Codes, Query, RawInterface, get_host_name, get_home_directory, get_temp_directory,
  get_environment, enum_interface, enum_loop, enumerate, RawCpu,
}
use moe_uv.Environment.Lists.{Selects, enum_interface-frees, enum_interface-Selects}
use moe_uv.Environment.Texts.{Answers, texts_complete}
use moe_uv.Outcome.{ok}

abbrev codes_of_linux : Codes
codes_of_linux = record { uv_enobufs = negsuc 104; uv_enoent = negsuc 1; uv_ecanceled = negsuc 124 }

-- A name of 300 bytes, which neither first buffer holds.
abbrev host : List ℕ
host = replicate 300 b'm'

abbrev answer : Query
answer size = if ltb 300 size then (pos 0, host ++ 0 ∷ [], 300) else (negsuc 104, [], 301)

answer-Answers : Answers codes_of_linux host answer
answer-Answers = record {
  too_small = λ size some_size le. ground arith;
  fits = λ size lt. (ground arith, ([], ground arith));
}

All-replicate : (n c : ℕ) → c ≢ 0 → All (λ d. d ≢ 0) (replicate n c)
All-replicate zero c ne = tt
All-replicate (suc n) c ne = (ne, All-replicate n c ne)

texts_complete_example :
    (get_host_name codes_of_linux answer ≡ ok host)
    × (get_home_directory codes_of_linux answer ≡ ok host)
    × (get_temp_directory codes_of_linux answer ≡ ok host)
    × (get_environment codes_of_linux answer ≡ ok host)
texts_complete_example =
    texts_complete codes_of_linux host answer answer-Answers (All-replicate 300 b'm' (omega arith))
      refl refl

abbrev linux : Families
linux = record { af_inet = 2; af_inet6 = 10; af_inet_ne = λ e. omega arith }

abbrev of_family : ℕ → RawInterface
of_family f = record {
  name = b'e' ∷ [];
  phys_addr = replicate 6 0;
  is_internal = 1;
  address = record { ss_family = f; bytes = [] };
  netmask = record { ss_family = 2; bytes = [] };
}

enum_interface-frees_example :
    (enum_interface linux (λ r. false) (pos 0) (of_family 2 ∷ [])).frees ≡ 1
enum_interface-frees_example = enum_interface-frees linux (λ r. false) (pos 0) (of_family 2 ∷ [])

-- The first entry has an address of another family, the second a mask of another, the third neither.
abbrev interfaces : List RawInterface
interfaces =
    of_family 17
    ∷ record (of_family 2) { netmask = record { ss_family = 17; bytes = [] } }
    ∷ of_family 2
    ∷ []

enum_interface-Selects_example :
    Selects linux interfaces (enum_interface linux (λ r. true) (pos 0) interfaces).info
unfolding enum_interface enumerate enum_loop
enum_interface-Selects_example = enum_interface-Selects linux (λ r. true) (pos 0) interfaces refl

abbrev processor : RawCpu
processor = record { model = host; speed = 2400; user = 1; nice = 2; sys = 3; idle = 4; irq = 5 }
