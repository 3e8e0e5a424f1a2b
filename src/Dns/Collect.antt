-- ===== src/Dns/Collect.antt =====
-- ResolveAll gives each address once.
use moe_uv.Base.{
  ◌≡◌, ◌⊎◌, inl, inr, refl, Bool, true, false, ◌||◌, List, [], ◌∷◌, ◌++◌, arith, ◌==◌, subst,
  Bool-cases,
}
use moe_uv.Dns.{Node, node_end_point, contains, collect, done}
use moe_uv.EndPoint.{Families, Storage, from_sockaddr_in, equals}
use moe_uv.EndPoint.Equality.{equals_symm}

module _ (os : Families) where
  -- No two of the end points are equal.
  abbrev pub Distinct : List Storage → Type 0
  Distinct [] = Unit {0}
  Distinct (e ∷ es) = (contains os e es ≡ false) × Distinct es

module _ (os : Families) (raw : List Node → Storage) where
  contains-append :
      (e f : Storage) (es : List Storage)
      → contains os e (es ++ f ∷ []) ≡ (contains os e es || equals os f e)
  unfolding contains
  contains-append e f [] = ground arith
  contains-append e f (x ∷ es) = ground (arith, contains-append e f es)

  contains-append_old :
      (e : Storage) (es fs : List Storage)
      → contains os e es ≡ true
      → contains os e (es ++ fs) ≡ true
  unfolding contains
  contains-append_old e [] fs h = cc
  contains-append_old e (x ∷ es) fs h = ground (arith, contains-append_old e es fs)

  Distinct-append :
      (f : Storage) (es : List Storage)
      → contains os f es ≡ false
      → Distinct os es
      → Distinct os (es ++ f ∷ [])
  Distinct-append f [] h d = (unfold contains in refl, tt)
  Distinct-append f (x ∷ es) h d =
      (appended, Distinct-append f es (unfold contains in ground arith) d.1)
    where
      appended : contains os x (es ++ f ∷ []) ≡ false
      appended = rw contains-append (unfold contains in ground (arith, d.0, (equals_symm os x f).1))

  -- Each node is of another family, or its end point is among the results.
  abbrev pub Covered : List Storage → List Node → Type 0
  Covered result [] = Unit {0}
  Covered result (n ∷ nodes) =
      (((n.ai_family == os.af_inet || n.ai_family == os.af_inet6) ≡ false)
        ⊎ (contains os (from_sockaddr_in n.ai_addr (raw (n ∷ nodes))) result ≡ true))
      × Covered result nodes

  collect-keeps :
      (room : List Storage → Bool) (nodes : List Node) (e ep last : Storage)
      (result final : List Storage)
      → contains os e result ≡ true
      → collect os raw false room nodes ep result ≡ done last final
      → contains os e final ≡ true
  unfolding collect
  collect-keeps room [] e ep last result final h c = ground arith
  collect-keeps room (n ∷ nodes) e ep last result final h c =
      let next = node_end_point os (raw (n ∷ nodes)) n ep in
      ground (
        arith,
        contains-append_old e result (next ∷ []),
        collect-keeps room nodes e next last result final,
        collect-keeps room nodes e next last (result ++ next ∷ []) final,
      )

  collect-Distinct :
      (room : List Storage → Bool) (nodes : List Node) (ep last : Storage)
      (result final : List Storage)
      → Distinct os result
      → collect os raw false room nodes ep result ≡ done last final
      → Distinct os final
  unfolding collect
  collect-Distinct room [] ep last result final d c = subst (Distinct os) (cc) d
  collect-Distinct room (n ∷ nodes) ep last result final d c =
      let next = node_end_point os (raw (n ∷ nodes)) n ep in
      elim (Bool-cases (contains os next result)) [
        | inl old ↦ collect-Distinct room nodes next last result final d (ground arith)
        | inr new ↦
            collect-Distinct room nodes next last (result ++ next ∷ []) final
              (Distinct-append next result new d) (ground arith)
      ]

  contains_last : (e : Storage) (es : List Storage) → contains os e (es ++ e ∷ []) ≡ true
  contains_last e es = ground (arith, contains-append e e es, (equals_symm os e e).0)

  collect-Covered :
      (room : List Storage → Bool) (nodes : List Node) (ep last : Storage)
      (result final : List Storage)
      → collect os raw false room nodes ep result ≡ done last final
      → Covered final nodes
  unfolding collect
  collect-Covered room [] ep last result final c = tt
  collect-Covered room (n ∷ nodes) ep last result final c =
      let next = node_end_point os (raw (n ∷ nodes)) n ep in
      (
        unfold node_end_point in
            ground (
              arith,
              contains_last next result,
              collect-keeps room nodes next next last result final,
              collect-keeps room nodes next next last (result ++ next ∷ []) final,
            ),
        elim (Bool-cases (contains os next result)) [
          | inl old ↦ collect-Covered room nodes next last result final (ground arith)
          | inr new ↦
              collect-Covered room nodes next last (result ++ next ∷ []) final (ground arith)
        ],
      )

  -- Where the loop of ResolveAll ends with results, no two of them are equal, and the end point read
  -- from each node of a known family is equal to one of them, whatever end point the loop began with.
  pub collect-Distinct-Covered :
      (room : List Storage → Bool) (nodes : List Node) (ep last : Storage) (final : List Storage)
      → collect os raw false room nodes ep [] ≡ done last final
      → Distinct os final × Covered final nodes
  collect-Distinct-Covered room nodes ep last final c = (
    collect-Distinct room nodes ep last [] final tt c,
    collect-Covered room nodes ep last [] final c,
  )
