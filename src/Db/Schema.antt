-- ===== src/Db/Schema.antt =====
-- The tables of migrations/0001_init_schema.up.sql with what 0006, 0007 and 0008 add.
-- Identifiers and times are numbers. Columns that no modelled statement reads or writes are left out.
use gatstogo.Base.{ℕ, ℤ, Bool, true, false, Option, List, [], Text}

-- tickets.status, with the values of its check constraint.
pub data Status : Type 0 where
  pending paid dispensing filled issue cancelled expired voided : Status

-- tickets.channel.
pub data Channel : Type 0 where
  transfer terminal ussd cash : Channel

pub record TicketRow : Type 0 where
  pub id : ℕ
  pub plant_id : ℕ
  pub reference : Text
  pub code : Text
  pub customer_name : Option Text
  pub customer_phone : Option Text
  pub size_grams : ℕ
  pub rate_per_kg : ℕ
  pub price_id : ℕ
  pub amount : ℕ
  pub channel : Channel
  pub status : Status
  pub net_grams : Option ℕ
  pub filled_at : Option ℕ
  pub filled_shift_id : Option ℕ
  pub confirmed_at : Option ℕ
  pub paid_at : Option ℕ
  pub sold_by : Option ℕ
  pub shift_id : Option ℕ
  pub void_reason : Option Text
  pub voided_by : Option ℕ
  pub voided_at : Option ℕ
  pub pump_id : Option ℕ
  pub dispensing_started_at : Option ℕ
  pub dispensing_started_by : Option ℕ
  pub closed_by : Option ℕ
  pub close_note : Option Text
  pub created_at : ℕ
  pub updated_at : ℕ

pub record ShiftRow : Type 0 where
  pub id : ℕ
  pub plant_id : ℕ
  pub user_id : ℕ
  pub device_id : Option Text
  pub opened_at : ℕ
  pub closed_at : Option ℕ
  pub opening_cash_kobo : ℤ
  pub closing_cash_kobo : Option ℤ
  pub tokens_issued : ℕ
  pub tokens_returned : Option ℕ
  pub notes : Option Text
  pub pump_id : Option ℕ

-- cash_movements.kind: the six values of its check constraint, and any other text that a caller
-- may hand over.
pub data CashKind : Type 0 where
  opening_float sale deposit payout count closing : CashKind
  other : Text → CashKind

pub record CashRow : Type 0 where
  pub plant_id : ℕ
  pub shift_id : ℕ
  pub kind : CashKind
  pub amount_kobo : ℤ
  pub counted_kobo : Option ℤ
  pub ticket_id : Option ℕ
  pub recorded_by : ℕ
  pub note : Option Text

pub data PumpStatus : Type 0 where
  working not_working maintenance : PumpStatus

pub record PumpRow : Type 0 where
  pub id : ℕ
  pub plant_id : ℕ
  pub name : Text
  pub status : PumpStatus
  pub sort_order : ℕ
  pub created_at : ℕ

pub record PriceRow : Type 0 where
  pub id : ℕ
  pub plant_id : ℕ
  pub price_per_kg : ℕ
  pub effective_from : ℕ
  pub set_by : Option ℕ

-- users.role, with the values of its check constraint.
pub data Role : Type 0 where
  owner manager cashier operator admin : Role

pub record UserRow : Type 0 where
  pub id : ℕ
  pub plant_id : ℕ
  pub name : Text
  pub phone : Text
  pub email : Option Text
  pub role : Role
  pub password_hash : Option Text
  pub pin_hash : Option Text
  pub active : Bool
  pub can_edit_price : Bool
  pub can_manage_staff : Bool
  pub can_manage_pumps : Bool

-- plant_hours; a time is its text, "15:04:05".
pub record HourRow : Type 0 where
  pub plant_id : ℕ
  pub day_of_week : ℕ
  pub segment : ℕ
  pub opens_at : Option Text
  pub closes_at : Option Text
  pub closed : Bool

-- plant_reviews of 0008.
pub record ReviewRow : Type 0 where
  pub id : ℕ
  pub plant_id : ℕ
  pub ticket_id : ℕ
  pub token : Text
  pub rating : Option ℕ
  pub note : Option Text
  pub submitted_at : Option ℕ

-- activity_log, without its JSON detail.
pub record AuditRow : Type 0 where
  pub plant_id : Option ℕ
  pub actor_id : Option ℕ
  pub action : Text
  pub subject : Text

pub record Db : Type 0 where
  pub tickets : List TicketRow
  pub shifts : List ShiftRow
  pub cash_movements : List CashRow
  pub pumps : List PumpRow
  pub prices : List PriceRow
  pub users : List UserRow
  pub plant_hours : List HourRow
  pub reviews : List ReviewRow
  pub activity_log : List AuditRow

abbrev pub empty_db : Db
empty_db = record {
  tickets = [];
  shifts = [];
  cash_movements = [];
  pumps = [];
  prices = [];
  users = [];
  plant_hours = [];
  reviews = [];
  activity_log = [];
}

-- idx_tickets_open_code as 0007 rebuilds it: the statuses whose codes must be unique in a plant.
abbrev pub is_open : Status → Bool
is_open Status.pending = true
is_open Status.paid = true
is_open Status.dispensing = true
is_open _ = false

abbrev pub is_pending : Status → Bool
is_pending Status.pending = true
is_pending _ = false

abbrev pub is_paid : Status → Bool
is_paid Status.paid = true
is_paid _ = false

abbrev pub is_dispensing : Status → Bool
is_dispensing Status.dispensing = true
is_dispensing _ = false

abbrev pub is_filled : Status → Bool
is_filled Status.filled = true
is_filled _ = false

abbrev pub is_sale : CashKind → Bool
is_sale CashKind.sale = true
is_sale _ = false

abbrev pub is_working : PumpStatus → Bool
is_working PumpStatus.working = true
is_working _ = false

-- role IN ('manager', 'cashier', 'operator').
abbrev pub is_staff : Role → Bool
is_staff Role.manager = true
is_staff Role.cashier = true
is_staff Role.operator = true
is_staff _ = false
