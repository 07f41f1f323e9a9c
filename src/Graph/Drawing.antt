-- ===== src/Graph/Drawing.antt =====
-- What frontend/src/components/StateMachineGraph.tsx draws for a state: the attributes that depend on it.
-- The definitions of filters and arrowheads, the animations and the fixed font attributes are left out.
use migration_safety_engine.Detail.View.{flow_index}
use migration_safety_engine.Types.States.{
  State, state_color, state_flow, state_label, state_text, done, rolled_back,
}
use migration_safety_engine.Prelude.{
  Bool, List, Option, Text, [], false, get_elem?, if◌then◌else◌, lit, ltb, none, not, some, text_eq,
  true, ℕ, ◌&&◌, ◌*◌, ◌++◌, ◌+◌, ◌-◌, ◌/◌, ◌==◌, ◌||◌, ◌∷◌,
}

abbrev pub node_w : ℕ
node_w = 100

abbrev pub node_h : ℕ
node_h = 40

pub record Node : Type 0 where
  pub state : State
  pub label : Text
  pub x : ℕ
  pub y : ℕ

pub record Link : Type 0 where
  pub source : State
  pub target : State

-- the nodes of `STATE_FLOW.map((s, i) => …)` from the index `i` on
unfoldable pub nodes_from : ℕ → List State → List Node
unfolding state_label
nodes_from i [] = []
nodes_from i (s ∷ ss) =
    record {
      state = s;
      label = state_label s;
      x = 30 + i * (node_w + 10);
      y = 160 / 2 - node_h / 2;
    }
    ∷ nodes_from (i + 1) ss

abbrev pub nodes : List Node
nodes = nodes_from 0 state_flow

unfoldable pub links_of : List Node → List Link
links_of [] = []
links_of (n ∷ []) = []
links_of (n ∷ k ∷ ns) = record { source = n.state; target = k.state } ∷ links_of (k ∷ ns)

-- `s === t` of two states
abbrev pub same_state : State → State → Bool
same_state s t = text_eq (state_text s) (state_text t)

-- `nodes.find(n => n.id === id)`
unfoldable pub find_node : State → List Node → Option Node
unfolding state_text text_eq
find_node s [] = none
find_node s (n ∷ ns) = let rest = find_node s ns in if same_state n.state s then some n else rest

-- `i < j` and `i === j` of two results of `indexOf`, where -1 is `none`
abbrev pub index_before : Option ℕ → Option ℕ → Bool
index_before i none = false
index_before none (some j) = true
index_before (some i) (some j) = ltb i j

abbrev pub index_same : Option ℕ → Option ℕ → Bool
index_same none none = true
index_same (some i) (some j) = i == j
index_same i j = false

abbrev pub index_in_flow : State → Option ℕ
index_in_flow s = flow_index s state_flow

abbrev pub is_success : State → Bool
is_success current = same_state current done

abbrev pub is_terminal : State → Bool
is_terminal current = same_state current done || same_state current rolled_back

pub record Line : Type 0 where
  pub x1 : ℕ
  pub y1 : ℕ
  pub x2 : ℕ
  pub y2 : ℕ
  pub stroke : Text
  pub stroke_width : ℕ
  pub stroke_opacity : Text
  pub marker_end : Text

abbrev is_active : State → Node → Bool
is_active current src = index_before (index_in_flow src.state) (index_in_flow current)

-- the line of a link whose ends are found
unfoldable pub link_line : State → Node → Node → Line
unfolding flow_index state_color
link_line current src tgt = record {
  x1 = src.x + node_w;
  y1 = src.y + node_h / 2;
  x2 = tgt.x;
  y2 = tgt.y + node_h / 2;
  stroke = if is_active current src then state_color src.state else lit "#2a3050";
  stroke_width = if is_active current src then 2 else 1;
  stroke_opacity = if is_active current src then lit "0.6" else lit "0.3";
  marker_end = if is_active current src then lit "url(#sm-arrow-active)" else lit "url(#sm-arrow)";
}

-- the dashed line that flows along an active link
unfoldable pub flow_line : Node → Node → Line
unfolding state_color
flow_line src tgt = record {
  x1 = src.x + node_w;
  y1 = src.y + node_h / 2;
  x2 = tgt.x;
  y2 = tgt.y + node_h / 2;
  stroke = state_color src.state;
  stroke_width = 2;
  stroke_opacity = lit "0.8";
  marker_end = [];
}

-- one round of `links.forEach`
unfoldable pub draw_link : State → Link → List Line
unfolding find_node link_line flow_line
draw_link current link = elim (find_node link.source nodes) [
  | none ↦ []
  | some src ↦ elim (find_node link.target nodes) [
    | none ↦ []
    | some tgt ↦
        link_line current src tgt ∷ (if is_active current src then flow_line src tgt ∷ [] else [])
  ]
]

pub record Box : Type 0 where
  pub fill : Text
  pub stroke : Text
  pub stroke_width : ℕ
  pub filter_url : Text
  pub text_fill : Text
  pub font_weight : Text

-- the attributes of the box and of the text of a node
unfoldable pub draw_node : State → Node → Box
unfolding flow_index state_color
draw_node current d =
    let idx = index_in_flow d.state in
    let current_idx = index_in_flow current in
    let is_current = same_state d.state current in
    record {
      fill =
          if index_before idx current_idx
          then state_color d.state ++ lit "30"
          else if index_same idx current_idx
          then state_color d.state ++ lit "20"
          else lit "rgba(15, 20, 40, 0.8)";
      stroke =
          if is_current && not (is_terminal current)
          then state_color d.state
          else if index_before idx current_idx
          then state_color d.state ++ lit "60"
          else if index_same idx current_idx && is_terminal current
          then state_color d.state
          else lit "rgba(255, 255, 255, 0.08)";
      stroke_width = if is_current then 2 else 1;
      filter_url =
          if is_current && is_success current
          then lit "url(#sm-glow-strong)"
          else if is_current && not (is_terminal current)
          then lit "url(#sm-glow)"
          else lit "none";
      text_fill =
          if index_before idx current_idx || index_same idx current_idx
          then lit "#f0f2f8"
          else lit "#5a6478";
      font_weight = if is_current then lit "700" else lit "500";
    }

pub record Ring : Type 0 where
  pub x : ℕ
  pub y : ℕ
  pub width : ℕ
  pub height : ℕ
  pub rx : ℕ
  pub stroke : Text
  pub stroke_width : ℕ
  pub dash : Text
  pub opacity : Text

-- a ring that stands out by `margin` around the node of the current state
unfoldable pub ring : State → ℕ → ℕ → ℕ → Text → Text → Node → Ring
unfolding state_color
ring current margin rx width dash opacity n = record {
  x = n.x - margin;
  y = n.y - margin;
  width = node_w + 2 * margin;
  height = node_h + 2 * margin;
  rx = rx;
  stroke = state_color current;
  stroke_width = width;
  dash = dash;
  opacity = opacity;
}

-- the rings around the current node, and the terminal effect
unfoldable pub draw_rings : State → List Ring
unfolding ring flow_index
draw_rings current = elim (index_in_flow current) [
  | none ↦ []
  | some current_idx ↦ elim (get_elem? nodes current_idx) [
    | none ↦ []
    | some n ↦
        if is_terminal current
        then ring current 6 14 2 (if is_success current then lit "none" else lit "4,3") (lit "0.6")
            n
          ∷ []
        else ring current 5 13 2 (lit "6,4") (lit "0.8") n
          ∷ ring current 8 16 1 [] (lit "0.3") n
          ∷ []
  ]
]
