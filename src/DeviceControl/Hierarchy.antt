-- ===== src/DeviceControl/Hierarchy.antt =====
-- backend/internal/devicecontrol/parse.go: the accessibility tree that uiautomator dumps.
-- encoding/xml is the parameter that yields the nodes of a document.
use open_cuttles.Base.{
  drop, take, map, str_eq, ltb, Bool, Option, String, ℕ, List, ◌+◌, ◌-◌, ◌||◌, [], ◌∷◌,
  if◌then◌else◌, ◌==◌, suc, true, false, none, some,
}
use open_cuttles.DeviceControl.Readings.{replace_with_space, or_else}
use open_cuttles.Base.Int.{◌+ℤ◌, quotient, ℤ}
use open_cuttles.Go.{wrapped, message, Result, Error, ok, err}
use open_cuttles.Go.Numbers.{atoi, wrap}
use open_cuttles.Go.Strings.{trim_space, codes, is_prefix}
use open_cuttles.Go.Text.{fields, Text}
use mathlib.Core.Option

pub record Point : Type 0 where
  pub x : ℤ
  pub y : ℤ

pub record XmlAttributes : Type 0 where
  pub text : String
  pub resource_id : String
  pub class : String
  pub content_desc : String
  pub package_name : String
  pub clickable : String
  pub scrollable : String
  pub focused : String
  pub bounds : String

mutual
  pub data XmlNode : Type 0 where
    element : XmlAttributes → XmlNodes → XmlNode

  pub data XmlNodes : Type 0 where
    end : XmlNodes
    next : XmlNode → XmlNodes → XmlNodes

pub record UiFields : Type 0 where
  pub text : String
  pub resource_id : String
  pub class : String
  pub content_desc : String
  pub package_name : String
  pub is_clickable : Bool
  pub is_scrollable : Bool
  pub is_focused : Bool
  pub bounds : String
  pub center : Option Point

mutual
  pub data UiNode : Type 0 where
    node : UiFields → UiNodes → UiNode

  pub data UiNodes : Type 0 where
    done : UiNodes
    child : UiNode → UiNodes → UiNodes

is_bracket : ℕ → Bool
is_bracket c = c == b'[' || c == b']' || c == b','

unfoldable pub middle : ℤ → ℤ → ℤ
unfolding wrap
middle a b = quotient (wrap (a +ℤ b)) 2

unfoldable pub center_of : List (Option ℤ) → Option Point
unfolding middle
center_of (some a ∷ some b ∷ some c ∷ some d ∷ []) =
    some (record { x = middle a c; y = middle b d })
center_of _ = none

unfoldable pub center_of_bounds : Text → Option Point
unfolding fields atoi is_bracket center_of
center_of_bounds bounds = center_of (map atoi (fields (replace_with_space is_bracket bounds)))

unfoldable pub converted : XmlAttributes → UiFields
unfolding center_of_bounds codes trim_space
converted a = record {
  text = trim_space a.text;
  resource_id = a.resource_id;
  class = a.class;
  content_desc = trim_space a.content_desc;
  package_name = a.package_name;
  is_clickable = str_eq a.clickable "true";
  is_scrollable = str_eq a.scrollable "true";
  is_focused = str_eq a.focused "true";
  bounds = a.bounds;
  center = center_of_bounds (codes a.bounds);
}

unfoldable mutual
  unfolding converted

  pub convert_node : XmlNode → UiNode
  convert_node (element a nodes) = node (converted a) (convert_nodes nodes)

  pub convert_nodes : XmlNodes → UiNodes
  convert_nodes end = done
  convert_nodes (next n rest) = child (convert_node n) (convert_nodes rest)

-- strings.Index
unfoldable pub index_of : Text → Text → Option ℕ
unfolding is_prefix
index_of p [] = none
index_of p (c ∷ s) = elim (is_prefix p (c ∷ s)) [
  | true ↦ some 0
  | false ↦ Option.map suc (index_of p s)
]

-- strings.LastIndex
unfoldable pub last_index_of : Text → Text → Option ℕ
unfolding is_prefix
last_index_of p [] = none
last_index_of p (c ∷ s) = elim (last_index_of p s) [
  | some n ↦ some (suc n)
  | none ↦ if is_prefix p (c ∷ s) then some 0 else none
]

-- The panic of a slice whose end is before its start.
abbrev pub out_of_range : Error
out_of_range = message "runtime error: slice bounds out of range"

-- s[from:to], for `to` within s.
unfoldable pub slice : ℕ → ℕ → Text → Result Text
slice from to s = if ltb to from then err out_of_range else ok (take (to - from) (drop from s))

unfoldable pub isolate_xml : Text → Result Text
unfolding index_of last_index_of slice codes
isolate_xml s = elim (or_else (index_of (codes "<?xml") s) (index_of (codes "<hierarchy") s)) [
  | none ↦ ok []
  | some from ↦ elim (last_index_of (codes "</hierarchy>") s) [
    | none ↦ ok []
    | some to ↦ slice from (to + 12) s
  ]
]

hierarchy_fields : UiFields
hierarchy_fields = record {
  text = "";
  resource_id = "";
  class = "hierarchy";
  content_desc = "";
  package_name = "";
  is_clickable = false;
  is_scrollable = false;
  is_focused = false;
  bounds = "";
  center = none;
}

parsed_document : (Text → Result XmlNodes) → Text → Result UiNode
unfolding convert_nodes hierarchy_fields
parsed_document unmarshal [] = err (message "no UI hierarchy found in dump output")
parsed_document unmarshal (c ∷ s) = elim (unmarshal (c ∷ s)) [
  | err e ↦ err (wrapped "parse ui hierarchy: " e "")
  | ok nodes ↦ ok (node hierarchy_fields (convert_nodes nodes))
]

unfoldable pub parse_ui_hierarchy : (Text → Result XmlNodes) → Text → Result UiNode
unfolding isolate_xml parsed_document
parse_ui_hierarchy unmarshal raw = elim (isolate_xml raw) [
  | err e ↦ err e
  | ok document ↦ parsed_document unmarshal document
]
