-- ===== src/Environment/Texts.antt =====
-- The texts of the environment, whatever their length.
use moe_uv.Base.{
  ℕ, zero, suc, ◌+◌, ◌≤◌, ◌<◌, ◌≡◌, ◌≢◌, refl, true, false, List, [], ◌∷◌, ◌++◌, arith, ℤ, pos,
  negsuc, is_zero, eq_ℤ, length, All, ap, dec_lt,
}
use moe_uv.Environment.{
  Codes, Query, until_nul, get_host_name, first_call, second_call, env_call, get_home_directory,
  get_temp_directory, get_environment,
}
use moe_uv.Outcome.{ok}

-- What libuv documents of uv_os_gethostname, uv_os_homedir, uv_os_tmpdir and uv_os_getenv for a text: a
-- buffer that is too small for the text and a NUL byte gets UV_ENOBUFS and the size that it takes;
-- another begins with the text and a NUL byte. Nothing is asked of an empty buffer.
pub record Answers (codes : Codes) (text : List ℕ) (query : Query) : Type 0 where
  pub too_small :
      (size : ℕ)
      → 1 ≤ size
      → size ≤ length text
      → ((query size).0 ≡ codes.uv_enobufs) × ((query size).2 ≡ length text + 1)
  pub fits :
      (size : ℕ)
      → length text < size
      → ((query size).0 ≡ pos 0) × ((rest : List ℕ) × ((query size).1 ≡ text ++ 0 ∷ rest))

until_nul-append :
    (text rest : List ℕ) → All (λ c. c ≢ 0) text → until_nul (text ++ 0 ∷ rest) ≡ text
unfolding until_nul
until_nul-append [] rest h = refl
until_nul-append (c ∷ text) rest (hc, h) = ground (arith, until_nul-append text rest h)

eq_ℤ-zero : (z : ℤ) → eq_ℤ (pos 0) z ≡ is_zero z
eq_ℤ-zero (pos zero) = refl
eq_ℤ-zero (pos (suc n)) = ground arith
eq_ℤ-zero (negsuc n) = refl

eq_ℤ-refl : (z : ℤ) → eq_ℤ z z ≡ true
eq_ℤ-refl (pos n) = ground arith
eq_ℤ-refl (negsuc n) = ground arith

module _ (codes : Codes) (text : List ℕ) (query : Query) (answers : Answers codes text query)
    (no_nul : All (λ c. c ≢ 0) text) (error : is_zero codes.uv_enobufs ≡ false) where
  read_fitting : (size : ℕ) → length text < size → until_nul (query size).1 ≡ text
  read_fitting size lt = rw ((answers.fits size lt).1.1) (until_nul-append text _ no_nul)

  second_call-fits : (size : ℕ) → length text < size → second_call codes (query size) ≡ ok text
  second_call-fits size lt = rw ((answers.fits size lt).0) (ap ok (read_fitting size lt))

  first_call-fits : (size : ℕ) → 1 ≤ size → first_call codes query (query size) ≡ ok text
  first_call-fits size some_size = elim (dec_lt (length text) size) [
    | yes lt ↦
        rw ((answers.fits size lt).0, eq_ℤ-zero codes.uv_enobufs, error)
          (ap ok (read_fitting size lt))
    | no ge ↦
        let small = answers.too_small size some_size (omega arith) in
        rw (small.0, eq_ℤ-refl codes.uv_enobufs)
          (rw (small.1) (second_call-fits (length text + 1) (omega arith)))
  ]

  env_call-fits :
      is_zero codes.uv_enoent ≡ false
      → (size : ℕ) → 1 ≤ size
      → env_call codes query (query size) ≡ ok text
  env_call-fits missing size some_size = elim (dec_lt (length text) size) [
    | yes lt ↦
        rw
          (
            (answers.fits size lt).0,
            eq_ℤ-zero codes.uv_enobufs,
            error,
            eq_ℤ-zero codes.uv_enoent,
            missing,
          )
          (ap ok (read_fitting size lt))
    | no ge ↦
        let small = answers.too_small size some_size (omega arith) in
        rw (small.0, eq_ℤ-refl codes.uv_enobufs)
          (rw (small.1) (second_call-fits (length text + 1) (omega arith)))
  ]

  -- Where libuv answers as documented for a text with no NUL byte, GetHostName, GetHomeDirectory,
  -- GetTempDirectory and GetEnvironment return that text, of whatever length: one that does not fit the
  -- first buffer of 256 bytes, or of 64 for GetEnvironment, is asked for again with the size that libuv
  -- reports.
  pub texts_complete :
      is_zero codes.uv_enoent ≡ false
      → (get_host_name codes query ≡ ok text)
        × (get_home_directory codes query ≡ ok text)
        × (get_temp_directory codes query ≡ ok text)
        × (get_environment codes query ≡ ok text)
  unfolding get_host_name get_home_directory get_temp_directory get_environment
  texts_complete missing = (
    first_call-fits 256 (omega arith),
    first_call-fits 256 (omega arith),
    first_call-fits 256 (omega arith),
    env_call-fits missing 64 (omega arith),
  )
