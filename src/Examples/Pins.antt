-- ===== src/Examples/Pins.antt =====
-- A PIN and a manager's changes at the terminal, with the theorems of cmd/server/terminal.go.
use mathlib.Core.List.{Mem}
use gatstogo.Base.{◌≡◌, refl, true, false, none, some, [], ◌∷◌, codes, text_eq, pos}
use gatstogo.Error.{ok}
use gatstogo.Db.Schema.{UserRow, Role}
use gatstogo.Db.Statement.{Store, connected}
use gatstogo.Redis.Memory.{Memory, empty_memory, memory}
use gatstogo.Redis.Memory.Laws.{memory_answers}
use gatstogo.Auth.{Bcrypt}
use gatstogo.Terminal.{Actor, Reply}
use gatstogo.Terminal.Shift.{PinForm, SignedIn, terminal_pin}
use gatstogo.Terminal.Shift.Admitted.{IsMember, LetsIn, terminal_pin-admitted}
use gatstogo.Terminal.Managing.Permitted.{Change, wanted, MayManage, accepted, accepted-MayManage}
use gatstogo.Examples.{a_db}
use gatstogo.Examples.Codec.{codec, uuid_text, uuid_parse, uuid_parse-uuid_text}

abbrev bcrypt : Bcrypt
bcrypt = record {
  generate = λ plain. ok (b'h' ∷ plain);
  compare = λ hash plain. text_eq hash (b'h' ∷ plain);
}

abbrev manager : UserRow
manager = record {
  id = 3;
  plant_id = 1;
  name = codes "Efe";
  phone = codes "080";
  email = none;
  role = Role.manager;
  password_hash = none;
  pin_hash = some (codes "h4321");
  active = true;
  can_edit_price = true;
  can_manage_staff = false;
  can_manage_pumps = false;
}

abbrev staffed : Store
staffed = connected false none 300 (record a_db { users = manager ∷ [] })

abbrev a_form : PinForm
a_form = record {
  user = some 3;
  pin = codes "4321";
  opening_cash_kobo = some (pos 0);
  device_id = codes "till";
  pump = some none;
}

abbrev pin_accepted : Reply SignedIn × Store × Memory
pin_accepted =
    terminal_pin memory codec uuid_text bcrypt (ok (1 ∷ 2 ∷ 3 ∷ [])) 100 40 (some 1) (some a_form)
      staffed empty_memory

abbrev answer : SignedIn
answer = record {
  token = codes "AQID";
  shift = record {
    id = 20;
    user_id = 3;
    opened_at = 50;
    opening_cash_kobo = pos 500000;
    pump_id = some 7;
    tokens_issued = 4;
    tokens_returned = 0;
  };
  resumed = true;
  fills_completed = 0;
  grams_dispensed = 0;
  cash_held_kobo = pos 0;
}

pin_is_accepted : pin_accepted.0 ≡ Reply.json answer
unfolding terminal_pin memory codec text_eq
pin_is_accepted = refl

terminal_pin-admitted_example :
    (u : UserRow) × Mem u staffed.db.users
    × IsMember memory codec uuid_text bcrypt
        (ok (1 ∷ 2 ∷ 3 ∷ []))
        100
        40
        memory_answers
        uuid_parse
        uuid_parse-uuid_text
        refl
        1
        (some 3)
        (codes "4321")
        u
    × LetsIn memory codec uuid_text bcrypt
        (ok (1 ∷ 2 ∷ 3 ∷ []))
        100
        40
        memory_answers
        uuid_parse
        uuid_parse-uuid_text
        refl
        1
        u
        answer
        pin_accepted.2
terminal_pin-admitted_example =
    terminal_pin-admitted memory codec uuid_text bcrypt (ok (1 ∷ 2 ∷ 3 ∷ [])) 100 40 memory_answers
      uuid_parse uuid_parse-uuid_text refl 1 a_form staffed empty_memory answer pin_is_accepted

abbrev at_desk : Actor
at_desk = record { user_id = 3; role = Role.manager; shift_id = none; pump_id = none }

price_accepted :
    accepted uuid_text 1 staffed at_desk (Change.change_price (some (some 160000)) 9) ≡ true
unfolding accepted
price_accepted = refl

accepted-MayManage_example :
    MayManage 1 3 (wanted (Change.change_price (some (some 160000)) 9)) staffed.db
accepted-MayManage_example =
    accepted-MayManage uuid_text 1 staffed at_desk (Change.change_price (some (some 160000)) 9)
      price_accepted
