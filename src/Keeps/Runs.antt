-- ===== src/Keeps/Runs.antt =====
-- Runs of a program from its start: making objects, accepting connections, all operations, all callbacks
-- of libuv and its reports of closed handles, in any order.
use moe_uv.Base.{
  Bool, ℕ, ◌≤◌, ◌≡◌, ◌≢◌, ◌∙◌, true, false, not, ◌&&◌, [], none, some, count, arith, ap,
  if◌then◌else◌,
}
use moe_uv.Handle.{get_self, on_uv_close, data_to_handle}
use moe_uv.Handle.Create.{create_handle}
use moe_uv.Handle.Reachable.{Reach-Inv}
use moe_uv.Handle.System.{silent, begin, report, run, next}
use moe_uv.Handle.Tag.{data_to_handle-handle_to_data}
use moe_uv.Keeps.{Ledger, Reached}
use moe_uv.Keeps.Creation.{IsNew, made, create_handle-Reached, accept-Reached}
use moe_uv.Keeps.Events.{User, Turn, take_turn, take_turn-Reached}
use moe_uv.TcpSocket.{accept}
use moe_uv.UdpSocket as UdpSocket
use moe_uv.EndPoint.{Storage}
use moe_uv.Keeps.Bound.{create_bound-Reached}
use moe_uv.Uv.{Libuv, IsLibuv, World, Object, Call, put}
use moe_uv.Uv.Calls.{inits, IsCalls}

abbrev pub no_handles : Ledger
no_handles = record { born = λ h. false; reported = λ h. false }

module _ {S : Type 0} (uv : Libuv S) (user : User S) where
  pub data Runs : Ledger → World S → Type 0 where
    start : (w : World S) → ((p : ℕ) → w.objects p ≡ none) → w.freed ≡ [] → Runs no_handles w
    turn : {l : Ledger} {w : World S} → Runs l w → (t : Turn) → Runs l (take_turn uv user t w)
    created :
        {l : Ledger} {w : World S}
        → Runs l w
        → (init : Call) (self h : ℕ) → inits init h ≡ true
        → ((k : ℕ) → k ≢ h → inits init k ≡ false)
        → IsNew uv l self h w
        → Runs (made l h (create_handle uv init self h w).0) (create_handle uv init self h w).1
    accepted :
        {l : Ledger} {w : World S}
        → Runs l w
        → (server client h : ℕ) → IsNew uv l client h w
        → Runs (made l h (accept uv server client h w).0) (accept uv server client h w).1
    bound :
        {l : Ledger} {w : World S}
        → Runs l w
        → (address : Storage) (reuse ipv6_only : Bool) (self h : ℕ) → IsNew uv l self h w
        → Runs
            (made l h (UdpSocket.create uv self h w).0)
            (UdpSocket.create_bound uv address reuse ipv6_only self h w).1
    -- libuv reports each close once, and only after uv_close.
    closed :
        {l : Ledger} {w : World S}
        → Runs l w
        → (h : ℕ) → l.born h ≡ true
        → l.reported h ≡ false
        → uv.is_closing w.uv_state h ≡ true
        → Runs (record l { reported = put l.reported h true }) (on_uv_close uv (silent uv) h w).1
    -- What libuv does between callbacks opens no closing handle that was made.
    waited :
        {l : Ledger} {w : World S}
        → Runs l w
        → (u : S)
        → ((h : ℕ) → l.born h ≡ true → uv.is_closing w.uv_state h ≡ true → uv.is_closing u h ≡ true)
        → Runs l (record w { uv_state = u })

  module _ (laws : IsLibuv uv) (calls : IsCalls uv) where
    pub Runs-Reached : {l : Ledger} {w : World S} → Runs l w → Reached uv l w
    Runs-Reached (start w no_objects none_freed) = record {
      lost = [];
      reach = begin w no_objects none_freed;
    }
    Runs-Reached (turn {l} {w} r t) = take_turn-Reached uv l laws calls user t w (Runs-Reached r)
    Runs-Reached (created {l} {w} r init self h initialises only new) =
        create_handle-Reached uv l self h calls init w initialises only new (Runs-Reached r)
    Runs-Reached (accepted {l} {w} r server client h new) =
        accept-Reached uv l client h calls server w new (Runs-Reached r)
    Runs-Reached (bound {l} {w} r address reuse ipv6_only self h new) =
        create_bound-Reached uv laws calls self l h address reuse ipv6_only w new (Runs-Reached r)
    Runs-Reached (closed r h known first closing) =
        let reached = Runs-Reached r in
        record { lost = reached.lost; reach = next reached.reach (report h known first closing) }
    Runs-Reached (waited r u grows) =
        let reached = Runs-Reached r in
        record { lost = reached.lost; reach = next reached.reach (run u grows) }

    -- In every run of a program, whichever operations on objects its callbacks perform and whatever they
    -- throw, and whatever libuv answers, the handle of an object is not freed, names that object, and is
    -- marked as closed exactly when libuv has reported its close. A callback makes no objects and accepts
    -- no connections; the program does, between callbacks.
    pub run_owners :
        {l : Ledger} {w : World S}
        → Runs l w
        → (p : ℕ) (o : Object) → w.objects p ≡ some o
        → o.handle ≢ 0
        → (count o.handle w.freed ≡ 0)
          × (get_self uv o.handle w ≡ p)
          × (o.closed ≡ l.reported o.handle)
    unfolding get_self
    run_owners {l} {w} r p o at some_handle =
        let owns = (Reach-Inv uv laws (Runs-Reached r).reach).owns p o at in
        (
          owns.kept some_handle,
          ap data_to_handle (owns.slot some_handle)
              ∙ (data_to_handle-handle_to_data p 0 owns.low (omega arith)).0,
          owns.closed some_handle,
        )

    -- In every run of a program, the memory of a handle that was made is not freed before libuv has reported
    -- its close, and no memory is freed twice.
    pub run_frees_once :
        {l : Ledger} {w : World S}
        → Runs l w
        → (h : ℕ)
        → ((if l.born h && not (l.reported h) then count h w.freed else 0) ≡ 0)
          × (count h w.freed ≤ 1)
    run_frees_once {l} {w} r h =
        let tracked = (Reach-Inv uv laws (Runs-Reached r).reach).tracked h in
        (ground (arith, tracked.pending), tracked.once)
