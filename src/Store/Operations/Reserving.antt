-- ===== src/Store/Operations/Reserving.antt =====
-- What a reservation finds and leaves.
use mailbridge_mcp.Common.{
  ℕ, ◌<◌, ◌≤◌, ◌-◌, ◌≡◌, ◌≢◌, String, true, false, none, some, [], ◌∷◌, ◌++◌, arith, find,
  count_where, count_where-append, Result, ok, err,
}
use mailbridge_mcp.Domain.Types.{SendPolicyView, submitting}
use mailbridge_mcp.Domain.Errors.{Error}
use mailbridge_mcp.Store.Rows.{Db, SendOperationRow, RateEventRow, is_operation}
use mailbridge_mcp.Store.Cipher.{Cipher}
use mailbridge_mcp.Store.Policies.{since, hour_ms, day_ms}
use mailbridge_mcp.Store.Operations.{
  Reservation, reserve_send_operation, start_operation, resume_operation,
}

-- The rows that a new reservation adds.
abbrev pub new_operation : String → String → String → String → String → ℕ → SendOperationRow
new_operation user key mailbox hash id now = record {
  operation_id = id;
  user_key = user;
  idempotency_key = key;
  mailbox_id = mailbox;
  payload_hash = hash;
  state = submitting;
  accepted_count = 0;
  rejected_count = 0;
  error_code = none;
  created_at = now;
  updated_at = now;
}

abbrev pub new_event : String → String → String → ℕ → RateEventRow
new_event user mailbox id now = record {
  operation_id = id;
  user_key = user;
  mailbox_id = mailbox;
  created_at = now;
}

module _ (cipher : Cipher) (db : Db) (user key mailbox hash : String) (policy : SendPolicyView)
    (recipients external : ℕ) (id : String) (at now : ℕ) where
  abbrev reserve : Result Reservation × Db
  reserve =
      reserve_send_operation cipher user key mailbox hash policy recipients external id at now db

  -- A key that is taken is never reserved again, and the attempt changes nothing.
  pub reserve-taken :
      (row : SendOperationRow)
      → find (is_operation user key) db.operations ≡ some row
      → (reserve.1 ≡ db)
        × ((r : Reservation) → reserve.0 ≡ ok r → (r.replayed ≡ true) × (r.receipt ≢ none))
  unfolding reserve_send_operation resume_operation
  reserve-taken row found = (ground arith, λ r h. (ground arith, ground arith))

  -- A reservation that fails has changed nothing.
  pub reserve-fails : (e : Error) → reserve.0 ≡ err e → reserve.1 ≡ db
  unfolding reserve_send_operation
  reserve-fails e h = ground arith

  module _ (free : find (is_operation user key) db.operations ≡ none) (r : Reservation) (db' : Db)
      (h : reserve ≡ (ok r, db')) where
    pub reserve-fresh : (r.replayed ≡ false) × (r.receipt ≡ none)
    unfolding reserve_send_operation start_operation
    reserve-fresh = ground arith

    pub reserve-operations :
        db'.operations ≡ db.operations ++ new_operation user key mailbox hash id now ∷ []
    unfolding reserve_send_operation start_operation
    reserve-operations = ground arith

    pub reserve-rate_events : db'.rate_events ≡ db.rate_events ++ new_event user mailbox id now ∷ []
    unfolding reserve_send_operation start_operation
    reserve-rate_events = ground arith

    pub reserve-usage :
        (count_where (since user mailbox (at - hour_ms)) db.rate_events < policy.max_per_hour)
        × (count_where (since user mailbox (at - day_ms)) db.rate_events < policy.max_per_day)
    unfolding reserve_send_operation start_operation
    reserve-usage = (ground arith, ground arith)

    -- After a reservation of a new key the events of the mailbox within the last hour and the last
    -- day, counted from the time that the check has read, are within the limits of the policy.
    pub reserve-within_limits :
        (count_where (since user mailbox (at - hour_ms)) db'.rate_events ≤ policy.max_per_hour)
        × (count_where (since user mailbox (at - day_ms)) db'.rate_events ≤ policy.max_per_day)
    unfolding count_where
    reserve-within_limits = (
      ground (
        arith,
        reserve-usage.0,
        reserve-rate_events,
        count_where-append (since user mailbox (at - hour_ms)) db.rate_events
            (new_event user mailbox id now ∷ []),
      ),
      ground (
        arith,
        reserve-usage.1,
        reserve-rate_events,
        count_where-append (since user mailbox (at - day_ms)) db.rate_events
            (new_event user mailbox id now ∷ []),
      ),
    )
