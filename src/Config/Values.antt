-- ===== src/Config/Values.antt =====
-- What config_mgr::get_value gives for keys without dots (src/common/config_mgr.cpp).
use schedule_center.Base.{
  Bool, [], Option, none, some, ◌≡◌, ◌≢◌, refl, ap, ◌∙◌, sym, All, is_some, if◌then◌else◌, ◌>>=◌,
}
use schedule_center.Base.Text.{Text}
use schedule_center.Json.{Json}
use schedule_center.Mysql.{returned}
use schedule_center.Config.{read_value, read_child, get_value}

-- No dot.
abbrev pub IsPlain : Text → Type 0
IsPlain = All (λ x. x ≢ b'.')

-- What Boost documents of its trees: `find` looks for a child of this name, `get_child` for the node at
-- this path, which is that child if the path has no dot; and every node has a text.
pub record IsTree (j : Json) : Type 0 where
  pub finds : (pt : j.Ptree) (key : Text) → IsPlain key → j.has pt key ≡ is_some (j.child pt key)
  pub texts : (pt : j.Ptree) (key : Text) → is_some (j.get_string pt key) ≡ is_some (j.child pt key)

-- A text, or the empty one.
abbrev pub or_empty : Option Text → Text
or_empty none = []
or_empty (some v) = v

module _ (j : Json) (tree : IsTree j) where
  read_value_lem :
      (t : Option Text) (b : Bool)
      → is_some t ≡ b
      → (if b then read_value j t else returned []) ≡ returned (or_empty t)
  read_value_lem none b e = rw (← e) refl
  read_value_lem (some v) b e = rw (← e) refl

  read_child_lem :
      (o : Option j.Ptree) (key : Text)
      → IsPlain key
      → (if is_some o then read_child j o key else returned [])
        ≡ returned (or_empty (o >>= λ t. j.get_string t key))
  read_child_lem none key plain = refl
  read_child_lem (some t) key plain =
      read_value_lem (j.get_string t key) (j.has t key)
        (tree.texts t key ∙ sym (tree.finds t key plain))

  -- For names without dots `get_value` throws nothing: it gives the text of the node, and the empty text
  -- if there is none.
  pub get_value_lem :
      (pt : j.Ptree) (type_name key : Text)
      → IsPlain type_name
      → IsPlain key
      → get_value j pt type_name key
        ≡ returned (or_empty (j.child pt type_name >>= λ t. j.get_string t key))
  unfolding get_value
  get_value_lem pt type_name key plain plain' =
      ap (λ b. if b then read_child j (j.child pt type_name) key else returned [])
        (tree.finds pt type_name plain)
      ∙ read_child_lem (j.child pt type_name) key plain'
