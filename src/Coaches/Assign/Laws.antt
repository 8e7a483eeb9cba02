-- ===== src/Coaches/Assign/Laws.antt =====
-- What the form sends, against what the server wants.
use dopacrm.Base.{Option, string_eq}
