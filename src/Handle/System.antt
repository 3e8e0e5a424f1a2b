-- ===== src/Handle/System.antt =====
-- The handles and objects of a program over time: each operation of AsyncHandle.cpp is a step, and so
-- is libuv's report of a close. What OnClose does is what the steps after the report do.
-- Addresses of handles are names: the pool gives a new one each time.
use moe_uv.Base.{
  count, ℕ, ◌^◌, ◌<◌, ◌≡◌, ◌≢◌, Bool, true, false, ◌&&◌, not, List, [], ◌∷◌, Option, none, some,
  ◌==◌, if◌then◌else◌,
}
use moe_uv.Handle.{free, construct, close, move_construct, move_assign, destruct, on_uv_close}
use moe_uv.Uv.{Libuv, World, Object, M, put, return}

-- Beside the world: the handles that were made, those whose close libuv has reported, and those that
-- an assignment over a closed object dropped.
pub record System (S : Type 0) : Type 0 where
  pub world : World S
  pub born : ℕ → Bool
  pub reported : ℕ → Bool
  pub lost : List ℕ

abbrev pub dropped : Option Object → List ℕ → List ℕ
dropped none lost = lost
dropped (some o) lost = if o.closed && not (o.handle == 0) then o.handle ∷ lost else lost

module _ {S : Type 0} (uv : Libuv S) where
  abbrev pub silent : ℕ → M S (Unit {0})
  silent p = return tt

  pub data Step (s : System S) : System S → Type 0 where
    -- An object is made around a handle that libuv has initialised.
    make :
        (self h : ℕ)
        → self ≢ 0
        → self < 2 ^ 63
        → s.world.objects self ≡ none
        → h ≢ 0
        → s.born h ≡ false
        → count h s.world.freed ≡ 0
        → uv.is_closing s.world.uv_state h ≡ false
        → Step s (record s { world = construct uv self h s.world; born = put s.born h true })
    -- The memory of a handle around which no object was made goes back to the pool.
    discard :
        (h : ℕ)
        → s.born h ≡ false
        → count h s.world.freed ≡ 0
        → Step s (record s { world = free uv h s.world })
    shut : (self : ℕ) → Step s (record s { world = (close uv self s.world).1 })
    move :
        (self org : ℕ)
        → self ≢ 0
        → self < 2 ^ 63
        → s.world.objects self ≡ none
        → Step s (record s { world = move_construct uv self org s.world })
    assign :
        (self org : ℕ) (o p : Object)
        → self ≢ org
        → s.world.objects self ≡ some o
        → s.world.objects org ≡ some p
        → Step s (record s {
          world = move_assign uv self org s.world;
          lost = dropped (s.world.objects self) s.lost;
        })
    destroy : (self : ℕ) → Step s (record s { world = destruct uv self s.world })
    -- libuv reports a close once, after uv_close.
    report :
        (h : ℕ)
        → s.born h ≡ true
        → s.reported h ≡ false
        → uv.is_closing s.world.uv_state h ≡ true
        → Step s (record s {
          world = (on_uv_close uv silent h s.world).1;
          reported = put s.reported h true;
        })
    -- Whatever else libuv does keeps the closing ones of these handles closing.
    run :
        (u : S)
        → ((h : ℕ)
            → s.born h ≡ true
            → uv.is_closing s.world.uv_state h ≡ true
            → uv.is_closing u h ≡ true)
        → Step s (record s { world = record s.world { uv_state = u } })

  abbrev pub start : World S → System S
  start w = record { world = w; born = λ h. false; reported = λ h. false; lost = [] }

  -- A program begins with no object and nothing freed.
  pub data Reach : System S → Type 0 where
    begin : (w : World S) → ((p : ℕ) → w.objects p ≡ none) → w.freed ≡ [] → Reach (start w)
    next : {s t : System S} → Reach s → Step s t → Reach t
