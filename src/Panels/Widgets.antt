-- ===== src/Panels/Widgets.antt =====
-- frontend/src/components/ErrorBoundary.tsx, ConfirmDialog.tsx, and the interval of SystemStatusPanel.tsx.
use migration_safety_engine.Prelude.{
  Bool, Option, Text, false, if◌then◌else◌, lit, none, or_else, some, text_eq, true, ℕ, ◌&&◌, ◌+◌,
}

-- The state of `ErrorBoundary`: `hasError` and `error`.
pub record BoundaryState (Error : Type 0) : Type 0 where
  pub has_error : Bool
  pub error : Option Error

-- What `render` returns: the children, the fallback, or the page with the two buttons.
pub data Rendered (Element : Type 0) : Type 0 where
  children_shown fallback_shown : Element → Rendered Element
  error_page : Rendered Element

module _ {Error : Type 0} where
  abbrev pub first_boundary : BoundaryState Error
  first_boundary = record { has_error = false; error = none }

  -- `getDerivedStateFromError`
  unfoldable pub derived_state : Error → BoundaryState Error
  derived_state e = record { has_error = true; error = some e }

  -- the button Try Again
  unfoldable pub try_again : BoundaryState Error → BoundaryState Error
  try_again s = first_boundary

  unfoldable pub render :
      {Element : Type 0} → Element → Option Element → BoundaryState Error → Rendered Element
  render children fallback s =
      if s.has_error
      then elim fallback [ some node ↦ fallback_shown node | none ↦ error_page ]
      else children_shown children

-- What the user does while a dialog is mounted, and which of its two functions is called.
pub data DialogEvent : Type 0 where
  press_key : Text → DialogEvent
  click_backdrop click_cancel click_confirm : DialogEvent

pub data DialogCall : Type 0 where
  no_call on_confirm on_cancel : DialogCall

-- The listener of the keys is there while the dialog is open; closed, it renders nothing to click on.
unfoldable pub dialog_call : Bool → DialogEvent → DialogCall
dialog_call is_open (press_key key) =
    if is_open && text_eq key (lit "Escape") then on_cancel else no_call
dialog_call is_open click_backdrop = if is_open then on_cancel else no_call
dialog_call is_open click_cancel = if is_open then on_cancel else no_call
dialog_call is_open click_confirm = if is_open then on_confirm else no_call

-- the labels, which have defaults, and the styles of the icon and of the button
unfoldable pub dialog_labels : Option Text → Option Text → Text × Text
dialog_labels confirm_label cancel_label =
    (or_else confirm_label (lit "Confirm"), or_else cancel_label (lit "Cancel"))

unfoldable pub icon_style : Bool → Text × Text
icon_style danger =
    if danger
    then (lit "rgba(239,68,68,0.1)", lit "1px solid rgba(239,68,68,0.2)")
    else (lit "rgba(59,130,246,0.1)", lit "1px solid rgba(59,130,246,0.2)")

unfoldable pub confirm_style : Bool → Text × Text
confirm_style danger =
    if danger
    then (lit "linear-gradient(135deg, #ef4444, #f97316)", lit "0 4px 20px rgba(239,68,68,0.3)")
    else (lit "linear-gradient(135deg, #3b82f6, #8b5cf6)", lit "0 4px 20px rgba(59,130,246,0.3)")

-- The interval of the status: how often it has been asked for.
pub record StatusPoll : Type 0 where
  pub asked : ℕ
  pub live : Bool

abbrev pub status_opened : StatusPoll
status_opened = record { asked = 1; live = true }

unfoldable pub status_tick : StatusPoll → StatusPoll
status_tick s = if s.live then record s { asked = s.asked + 1 } else s

unfoldable pub status_closed : StatusPoll → StatusPoll
status_closed s = record s { live = false }
