-- ===== src/Keeps/Handlers.antt =====
-- The handlers that libuv calls keep the agreement of objects and handles, if the user's callbacks do.
use moe_uv.Base.{
  ℕ, ℤ, ◌==◌, not, Bool, Bool-cases, inl, inr, List, pos, eq_ℤ, is_zero, is_negative, if◌then◌else◌,
}
use moe_uv.Handle.{get_self}
use moe_uv.Keeps.{Ledger, Keeps, close-Keeps, if-Keeps, choose-Keeps, then-Keeps}
use moe_uv.Outcome.{ok}
use moe_uv.Stream as Stream
use moe_uv.Stream.{
  Request, on_uv_shutdown, on_uv_write, on_uv_read, close_if_owner, close_self, still_owner,
}
use moe_uv.Uv.{Libuv, IsLibuv, World, M, return, when, catch_all, ◌>>◌}
use moe_uv.Uv.Calls.{IsCalls}

module _ {S : Type 0} (uv : Libuv S) (l : Ledger) (laws : IsLibuv uv) (calls : IsCalls uv) where
  pub when-Keeps :
      (b : World S → Bool) (m : M S (Unit {0})) → Keeps uv l m → Keeps uv l (λ w. when (b w) m w)
  when-Keeps b m keeps w r = elim (Bool-cases (b w)) [
    | inl holds ↦ rw holds (keeps w r)
    | inr fails ↦ rw fails r
  ]

  pub close_if_owner-Keeps : (h self : ℕ) → Keeps uv l (close_if_owner uv h self)
  close_if_owner-Keeps h self =
      when-Keeps (still_owner uv h self) (close_self uv self) (close-Keeps uv l laws calls self)

  -- Reporting an error, and then closing the object if it is still there.
  pub report-Keeps :
      (report : M S (Unit {0})) (h self : ℕ)
      → Keeps uv l report
      → Keeps uv l (catch_all report >> close_if_owner uv h self)
  report-Keeps report h self keeps =
      then-Keeps uv l (catch_all report) (close_if_owner uv h self) keeps
        (close_if_owner-Keeps h self)

  -- A handler looks for its object first, and does nothing without one.
  pub with_self-Keeps :
      (h : ℕ) (m : ℕ → M S (Unit {0}))
      → ((p : ℕ) → Keeps uv l (m p))
      → Keeps uv l (λ w. if get_self uv h w == 0 then (ok tt, w) else m (get_self uv h w) w)
  with_self-Keeps h m keeps =
      if-Keeps uv l (λ w. get_self uv h w == 0) (return tt) (λ w. m (get_self uv h w) w) (λ w r. r)
        (λ w r. keeps (get_self uv h w) w r)

  module _ (react : Stream.Event → M S (Unit {0}))
      (user : (e : Stream.Event) → Keeps uv l (react e)) where
    pub on_uv_shutdown-Keeps :
        (request : Request) (status : ℤ) → Keeps uv l (on_uv_shutdown uv react request status)
    unfolding on_uv_shutdown
    on_uv_shutdown-Keeps request status =
        with_self-Keeps request.handle
          (λ p w.
            if not (is_zero status)
            then Stream.report_error uv react request.handle p status w
            else catch_all (react (Stream.on_shutdown p)) w)
          (λ p.
            if-Keeps uv l (λ w. not (is_zero status))
              (Stream.report_error uv react request.handle p status)
              (catch_all (react (Stream.on_shutdown p)))
              (report-Keeps (react (Stream.on_error p status)) request.handle p
                (user (Stream.on_error p status)))
              (user (Stream.on_shutdown p)))

    pub on_uv_write-Keeps :
        (request : Request) (status : ℤ) → Keeps uv l (on_uv_write uv react request status)
    unfolding on_uv_write
    on_uv_write-Keeps request status =
        with_self-Keeps request.handle
          (λ p w.
            if not (is_zero status)
            then (catch_all (react (Stream.on_write request.address status))
                  >> Stream.report_if_owner uv react request.handle p status)
                w
            else catch_all (react (Stream.on_write request.address (pos 0))) w)
          (λ p.
            if-Keeps uv l (λ w. not (is_zero status))
              (catch_all (react (Stream.on_write request.address status))
                >> Stream.report_if_owner uv react request.handle p status)
              (catch_all (react (Stream.on_write request.address (pos 0))))
              (then-Keeps uv l (catch_all (react (Stream.on_write request.address status)))
                (Stream.report_if_owner uv react request.handle p status)
                (user (Stream.on_write request.address status))
                (when-Keeps (still_owner uv request.handle p)
                  (Stream.report_error uv react request.handle p status)
                  (report-Keeps (react (Stream.on_error p status)) request.handle p
                    (user (Stream.on_error p status)))))
              (user (Stream.on_write request.address (pos 0))))

    pub on_uv_read-Keeps :
        (h : ℕ) (nread : ℤ) (buffer : List ℕ) → Keeps uv l (on_uv_read uv react h nread buffer)
    unfolding on_uv_read
    on_uv_read-Keeps h nread buffer =
        with_self-Keeps h
          (λ p w.
            if is_negative nread
            then catch_all (Stream.read_error uv react h p nread) w
            else if not (is_zero nread)
            then catch_all (react (Stream.on_data p buffer)) w
            else (ok tt, w))
          (λ p.
            if-Keeps uv l (λ w. is_negative nread)
              (catch_all (Stream.read_error uv react h p nread))
              (λ w.
                if not (is_zero nread)
                then catch_all (react (Stream.on_data p buffer)) w
                else (ok tt, w))
              (choose-Keeps uv l (eq_ℤ nread uv.uv_eof) (react (Stream.on_eof p))
                (react (Stream.on_error p nread) >> close_if_owner uv h p) (user (Stream.on_eof p))
                (then-Keeps uv l (react (Stream.on_error p nread)) (close_if_owner uv h p)
                  (user (Stream.on_error p nread)) (close_if_owner-Keeps h p)))
              (if-Keeps uv l (λ w. not (is_zero nread))
                (catch_all (react (Stream.on_data p buffer))) (return tt)
                (user (Stream.on_data p buffer)) (λ w r. r)))
