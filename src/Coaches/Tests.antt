-- ===== src/Coaches/Tests.antt =====
-- A coach attached to a class, and the theorem at it.
use dopacrm.Base.{true, none, some, List, [], ◌∷◌}
use dopacrm.Base.Integers.{pos}
use dopacrm.Auth.Types.{User, owner}
use dopacrm.Server.Schedule.{fixed}
use dopacrm.Server.Coaches.{AssignCoach, Link}
use dopacrm.Coaches.Assign.{Edit, coach_to, role_to, pay_to, cents_to, day_toggled}

abbrev manager : User
manager = record {
  id = "u1";
  email = "owner@gym";
  first_name = none;
  last_name = none;
  phone = none;
  oauth_provider = none;
  is_active = true;
  role = owner;
  tenant_id = some "t1";
  tenant_features_enabled = [];
}

abbrev clicks : List Edit
clicks =
    coach_to (some "noa")
    ∷ day_toggled "tue"
    ∷ day_toggled "sun"
    ∷ day_toggled "tue"
    ∷ role_to "  "
    ∷ pay_to fixed
    ∷ cents_to (pos 500000)
    ∷ []

abbrev sent : AssignCoach
sent = record {
  coach_id = "noa";
  role = "main";
  is_primary = true;
  pay_model = fixed;
  pay_amount_cents = pos 500000;
  weekdays = "sun" ∷ [];
}

-- Noa has another role in the class, and the main one in another class.
abbrev links : List Link
links =
    record { class_id = "yoga"; coach_id = "noa"; role = "assistant" }
    ∷ record { class_id = "spin"; coach_id = "noa"; role = "main" }
    ∷ []
