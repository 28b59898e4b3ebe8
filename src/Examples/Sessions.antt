-- ===== src/Examples/Sessions.antt =====
-- Sessions and their cookies, with the theorems of internal/session, internal/csrf and
-- internal/middleware.
use gatstogo.Base.{
  ℕ, ◌≡◌, refl, false, not, ◌&&◌, none, some, List, [], ◌∷◌, ◌++◌, Text, codes, text_eq, is_empty,
  base64url,
}
use gatstogo.Error.{Result, ok}
use gatstogo.Redis.Memory.{Memory, empty_memory, memory}
use gatstogo.Redis.Memory.Laws.{memory_answers}
use gatstogo.Session.{Data, role_owner, owner_ttl, create, load, new_token}
use gatstogo.Session.Refinement.{Command, Represents, serve, replay, serve_refines}
use gatstogo.Session.Guards.{Actor, Outcome, require_owner_session}
use gatstogo.Session.Guards.Admission.{Guard, StandsFor, is_owner_role, guarded, admitted-StandsFor}
use gatstogo.Csrf.{
  Request, is_safe, csrf, submitted_token, new_public_token, ensure_public_csrf_cookie,
}
use gatstogo.Csrf.Forms.{embedded, later_cookie, csrf-embedded}
use gatstogo.SignIn.{empty_session}
use gatstogo.Examples.Codec.{codec, uuid_text, uuid_parse}

abbrev an_owner : Data
an_owner = record empty_session {
  user_id = uuid_text 3;
  role = role_owner;
  name = codes "Ada";
  plant_id = uuid_text 1;
}

abbrev bytes : Result (List ℕ)
bytes = ok (1 ∷ 2 ∷ 3 ∷ [])

abbrev a_token : Text
a_token = codes "AQID"

abbrev commands : List Command
commands =
    Command.mint an_owner owner_ttl bytes 100
    ∷ Command.read a_token
    ∷ Command.attach a_token (uuid_text 20)
    ∷ Command.renew (codes "other") owner_ttl
    ∷ Command.renew a_token 0
    ∷ Command.finish a_token
    ∷ Command.read a_token
    ∷ []

empty_Represents : Represents memory memory_answers codec empty_memory (λ t. none)
unfolding memory_answers
empty_Represents = record { held = λ t. refl }

serve_refines_example :
    ((serve memory codec commands empty_memory).0 ≡ (replay commands (λ t. none)).0)
    × Represents memory memory_answers codec
        (serve memory codec commands empty_memory).1
        (replay commands (λ t. none)).1
serve_refines_example =
    serve_refines memory memory_answers codec commands empty_memory (λ t. none) empty_Represents

-- The memory with the owner's session.
abbrev signed_in : Memory
signed_in = (create memory codec an_owner owner_ttl bytes 100 empty_memory).1

abbrev the_actor : Actor
the_actor = record {
  user_id = some 3;
  name = codes "Ada";
  role = role_owner;
  plant_id = some 1;
  shift_id = none;
  pump_id = none;
  phone = [];
  token = a_token;
  can_edit_price = false;
  can_manage_staff = false;
  can_manage_pumps = false;
}

owner_admitted :
    (guarded memory codec uuid_text uuid_parse 1 a_token Guard.owner signed_in).0
    ≡ Outcome.admitted the_actor
unfolding guarded require_owner_session load create memory codec base64url text_eq new_token
owner_admitted = refl

admitted-StandsFor_example :
    StandsFor memory codec uuid_text uuid_parse 1 a_token is_owner_role signed_in the_actor
admitted-StandsFor_example =
    admitted-StandsFor memory codec uuid_text uuid_parse 1 a_token Guard.owner signed_in the_actor
      owner_admitted

abbrev hmac : List ℕ → Text → List ℕ
hmac secret message = secret ++ message

-- A first visit sets the cookie AQID.
abbrev a_post : Request
a_post = record { method = codes "POST"; header = []; form_value = a_token; cookie = some a_token }

a_post_changes : is_safe a_post.method ≡ false
unfolding text_eq
a_post_changes = refl

a_post_cookie : a_post.cookie ≡ later_cookie hmac (9 ∷ []) none none bytes
unfolding later_cookie ensure_public_csrf_cookie new_public_token base64url
a_post_cookie = refl

csrf-embedded_example : csrf hmac (9 ∷ []) none a_post ≡ (
    not (is_empty (embedded hmac (9 ∷ []) none none bytes))
    && text_eq (embedded hmac (9 ∷ []) none none bytes) (submitted_token a_post))
csrf-embedded_example =
    csrf-embedded hmac (9 ∷ []) none none bytes a_post a_post_changes a_post_cookie
