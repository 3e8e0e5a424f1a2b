-- ===== src/Handle/Lifecycle/Steps.antt =====
-- Each step of the code is a step of the life of every handle.
use moe_uv.Base.{
  count, ℕ, ◌^◌, ◌<◌, ◌≡◌, ◌≢◌, true, false, some, none, arith, Option-cases, inl, inr, refl,
}
use moe_uv.Handle.{
  get_self, construct, close, destruct, on_uv_close, disown, move_assign, handle_of, get_handle,
  is_closing,
}
use moe_uv.Handle.Lifecycle.{may, life}
use moe_uv.Handle.Ownership.{Inv, data_to_handle_mark, handle_to_data-ne-zero, data_to_handle_zero}
use moe_uv.Handle.Ownership.Moves.{made, closed}
use moe_uv.Handle.Ownership.Ends.{told, ran, destroyed, discarded}
use moe_uv.Handle.Ownership.Transfers.{moved}
use moe_uv.Handle.System.{System, dropped}
use moe_uv.Uv.{Libuv, Object, IsLibuv}

no_object_at_zero :
    {S : Type 0} (uv : Libuv S) (s : System S) → Inv uv s → handle_of uv (s.world.objects 0) ≡ 0
no_object_at_zero uv s inv = elim (Option-cases (s.world.objects 0)) [
  | inl gone ↦ ground arith
  | inr (o, at) ↦ absurd ((inv.owns 0 o at).some_self refl)
]

abbrev pub assigned : {S : Type 0} (uv : Libuv S) → System S → ℕ → ℕ → System S
assigned uv s self org = record s {
  world = move_assign uv self org s.world;
  lost = dropped (s.world.objects self) s.lost;
}

module _ {S : Type 0} (uv : Libuv S) (laws : IsLibuv uv) (s : System S) (inv : Inv uv s)
    (k : ℕ) where
  pub make-may :
      (self h : ℕ) (some_self : self ≢ 0) (low : self < 2 ^ 63) (free : s.world.objects self ≡ none)
      (some_h : h ≢ 0) (new : s.born h ≡ false) (unused : count h s.world.freed ≡ 0)
      → uv.is_closing s.world.uv_state h ≡ false
      → may (life uv s k) (life uv (made uv s inv self h some_self low free some_h new unused) k)
        ≡ true
  unfolding may life get_self construct
  make-may self h some_self low free some_h new unused fresh =
      ground (arith, inv.tracked k, data_to_handle_mark self low, handle_to_data-ne-zero self)

  pub discard-may :
      (h : ℕ) (new : s.born h ≡ false) (unused : count h s.world.freed ≡ 0)
      → may (life uv s k) (life uv (discarded uv s inv h new unused) k) ≡ true
  unfolding may life get_self
  discard-may h new unused = ground (arith, inv.tracked k)

  pub shut-may : (self : ℕ) → may (life uv s k) (life uv (closed uv s inv self) k) ≡ true
  unfolding may life get_self close
  shut-may self = ground (
    arith,
    inv.tracked k,
    laws.is_closing-close s.world.uv_state (get_handle uv self s.world),
    laws.is_closing-close_ne s.world.uv_state (get_handle uv self s.world) k,
  )

  pub report-may :
      (h : ℕ) (known : s.born h ≡ true) (first : s.reported h ≡ false)
      (shut : uv.is_closing s.world.uv_state h ≡ true)
      → may (life uv s k) (life uv (told uv s inv h known first shut) k) ≡ true
  unfolding may life get_self on_uv_close
  report-may h known first shut =
      ground (arith, inv.tracked k, inv.tracked h, no_object_at_zero uv s inv, data_to_handle_zero)

  pub run-may :
      (u : S)
      (grows : (h : ℕ)
        → s.born h ≡ true
        → uv.is_closing s.world.uv_state h ≡ true
        → uv.is_closing u h ≡ true)
      → may (life uv s k) (life uv (ran uv s inv u grows) k) ≡ true
  unfolding may life get_self
  run-may u grows = ground (arith, inv.tracked k, grows k)

  pub destroy-may :
      (self : ℕ) (o : Object) (at : s.world.objects self ≡ some o)
      → may (life uv s k) (life uv (destroyed uv s inv laws self o at) k) ≡ true
  unfolding may life get_self destruct close is_closing
  destroy-may self o at = ground (
    arith,
    inv.tracked k,
    inv.owns self o at,
    data_to_handle_mark self,
    handle_to_data-ne-zero self,
    laws.is_closing-close s.world.uv_state o.handle,
    laws.is_closing-close_ne s.world.uv_state o.handle k,
  )

  pub move-may :
      (self org : ℕ) (some_self : self ≢ 0) (low : self < 2 ^ 63) (ne : self ≢ org)
      (empty : handle_of uv (s.world.objects self) ≡ 0) (o : Object)
      (at : s.world.objects org ≡ some o)
      → may (life uv s k) (life uv (moved uv s inv self org some_self low ne empty o at) k) ≡ true
  unfolding may life get_self
  move-may self org some_self low ne empty o at = ground (
    arith,
    inv.tracked k,
    inv.owns org o at,
    data_to_handle_mark self,
    data_to_handle_mark org,
    handle_to_data-ne-zero self,
    handle_to_data-ne-zero org,
  )

  -- An assignment is two changes, of two different handles.
  pub assign-may :
      (self org : ℕ) (o p : Object) (ne : self ≢ org) (at : s.world.objects self ≡ some o)
      (from : s.world.objects org ≡ some p)
      → may (life uv s k) (life uv (assigned uv s self org) k) ≡ true
  unfolding may life get_self move_assign disown close is_closing
  assign-may self org o p ne at from = ground (
    arith,
    inv.tracked k,
    inv.owns self o at,
    inv.owns org p from,
    data_to_handle_mark self,
    data_to_handle_mark org,
    handle_to_data-ne-zero self,
    handle_to_data-ne-zero org,
    laws.is_closing-close s.world.uv_state o.handle,
    laws.is_closing-close_ne s.world.uv_state o.handle k,
  )
