-- ===== src/Handle/Members.antt =====
-- The callbacks and other members of the classes over AsyncHandle: how a move takes them along
-- (`: AsyncHandle(std::move(org)), m_pOnX(std::move(org.m_pOnX))`), and how an event finds them.
-- The members of all objects of a class are a function of the object's address; a user's function is a
-- number. What a std::function holds that was moved from is not specified, so the members that a move
-- leaves behind are an argument, `left`.
use moe_uv.Base.{ℕ, ◌<◌, ◌≡◌, ◌≢◌, ◌^◌, ap, ◌∙◌, ℤ, List, Option, none, some, arith}
use moe_uv.Handle.{get_self, move_construct, move_assign, disown, close}
use moe_uv.Handle.Create.{pass_on}
use moe_uv.Handle.Tag.{data_to_handle-handle_to_data}
use moe_uv.Outcome.{Outcome}
use moe_uv.Uv.{Libuv, World, Object, M, put, return, catch_all}

put_at : {C : Type 0} (m : ℕ → C) (k : ℕ) (c : C) → put m k c k ≡ c
put_at m k c = ground arith

-- What the user's functions do, by the signatures that the library calls.
pub record Functions (S : Type 0) : Type 0 where
  pub plain : ℕ → M S (Unit {0})
  pub number : ℕ → ℤ → M S (Unit {0})
  pub numbers : ℕ → ℤ → ℤ → M S (Unit {0})
  pub bytes : ℕ → List ℕ → M S (Unit {0})
  pub change : ℕ → Option (List ℕ) → ℤ → ℤ → M S (Unit {0})

-- `if (m_pOnX) m_pOnX(...)`
unfoldable pub call_if : {S : Type 0} → Option ℕ → (ℕ → M S (Unit {0})) → M S (Unit {0})
call_if none f = return tt
call_if (some k) f = f k

-- The world, and the members of the objects of a class.
abbrev pub Objects : Type 0 → Type 0 → Type 0
Objects S C = World S × (ℕ → C)

-- The members move after the handle.
abbrev pub move_members : {C : Type 0} → ℕ → ℕ → C → (ℕ → C) → ℕ → C
move_members self org left members = put (put members org left) self (members org)

module _ {S : Type 0} (uv : Libuv S) where
  -- X(X&&)
  abbrev pub move_with : {C : Type 0} → ℕ → ℕ → C → Objects S C → Objects S C
  move_with self org left (w, members) =
      (move_construct uv self org w, move_members self org left members)

  -- operator=(X&&), of two objects
  abbrev pub assign_with : {C : Type 0} → ℕ → ℕ → C → Objects S C → Objects S C
  assign_with self org left (w, members) =
      (move_assign uv self org w, move_members self org left members)

  -- The members that an event of a handle goes to: those of the object that the handle names.
  abbrev pub members_of : {C : Type 0} → ℕ → Objects S C → C
  members_of h (w, members) = members (get_self uv h w)

  -- An event of a handle, where `call` is what it does with the members of an object.
  abbrev pub event_of :
      {C : Type 0} → (C → M S (Unit {0})) → ℕ → Objects S C → Outcome (Unit {0}) × World S
  event_of call h (w, members) = pass_on uv (λ p. call (members p)) h w

  module _ (self org : ℕ) (o : Object) (w : World S) (at : w.objects org ≡ some o)
      (low : self < 2 ^ 63) (some_handle : o.handle ≢ 0) where
    pub found_again :
        (get_self uv o.handle (move_construct uv self org w) ≡ self)
        × (self ≢ org → get_self uv o.handle (move_assign uv self org w) ≡ self)
    unfolding get_self move_construct move_assign disown close
    found_again =
        let back = (data_to_handle-handle_to_data self 0 low (omega arith)).0 in
        (ground (arith, back), λ ne. ground (arith, back))

    module _ {C : Type 0} (left : C) (members : ℕ → C) (ne : self ≢ org) where
      pub members_of-moved :
          get_self uv o.handle w ≡ org
          → (members_of o.handle (move_with self org left (w, members))
              ≡ members_of o.handle (w, members))
            × (members_of o.handle (assign_with self org left (w, members))
                ≡ members_of o.handle (w, members))
      members_of-moved names =
          (rw (found_again.0, names) (ground arith), rw (found_again.1 ne, names) (ground arith))

      -- After a move, an event runs with the members that the object moved from had, in the new world.
      pub event_of-moved :
          (call : C → M S (Unit {0}))
          → self ≢ 0
          → (event_of call o.handle (move_with self org left (w, members))
              ≡ catch_all (call (members org)) (move_construct uv self org w))
            × (event_of call o.handle (assign_with self org left (w, members))
                ≡ catch_all (call (members org)) (move_assign uv self org w))
      unfolding pass_on
      event_of-moved call some_self =
          (rw found_again.0 (ground arith), rw (found_again.1 ne) (ground arith))

    -- The same, where the members of the object moved from have just been set.
    pub event_of-set :
        {C : Type 0}
        → (left c : C) (m : ℕ → C) → (call : C → M S (Unit {0})) → self ≢ org
        → self ≢ 0
        → (event_of call o.handle (move_with self org left (w, put m org c))
            ≡ catch_all (call c) (move_construct uv self org w))
          × (event_of call o.handle (assign_with self org left (w, put m org c))
              ≡ catch_all (call c) (move_assign uv self org w))
    event_of-set left c m call ne some_self =
        let after = event_of-moved left (put m org c) ne call some_self in
        let found = ap call (put_at m org c) in
        (
          after.0 ∙ ap (λ k. catch_all k (move_construct uv self org w)) found,
          after.1 ∙ ap (λ k. catch_all k (move_assign uv self org w)) found,
        )
