-- ===== src/Printer.antt =====
-- print-core/src/model/printer.rs: printers and their state. An `f64` is its bit pattern: nothing
-- here computes with it.
use kiln_print.Prelude.{ℕ, String, Bool, Option, List}
use kiln_print.Job.{DocumentType}

pub data ConnectionType : Type 0 where
  local network usb serial virtual : ConnectionType

pub data PrinterState : Type 0 where
  ready printing paused offline error unknown : PrinterState

pub data PrinterCondition : Type 0 where
  paused error offline not_available pending_deletion paper_out paper_jam : PrinterCondition
  paper_problem manual_feed door_open output_bin_full toner_low no_toner : PrinterCondition
  out_of_memory user_intervention busy warming_up power_save paper_low head_open : PrinterCondition
  ribbon_out : PrinterCondition

pub data Orientation : Type 0 where
  portrait landscape : Orientation

pub record PaperSize : Type 0 where
  pub id : String
  pub name : String
  pub width_mm : ℕ
  pub height_mm : ℕ

pub record Resolution : Type 0 where
  pub x_dpi : ℕ
  pub y_dpi : ℕ

pub record Tray : Type 0 where
  pub id : String
  pub name : String

pub record PrinterCapabilities : Type 0 where
  pub paper_sizes : Option (List PaperSize)
  pub color : Option Bool
  pub duplex : Option Bool
  pub resolutions : Option (List Resolution)
  pub max_copies : Option ℕ
  pub collate : Option Bool
  pub orientations : Option (List Orientation)
  pub trays : Option (List Tray)
  pub raw : Option Bool
  pub datatypes : Option (List String)
  pub document_types : List DocumentType

pub record Printer : Type 0 where
  pub id : String
  pub name : String
  pub display_name : String
  pub provider : String
  pub connection : ConnectionType
  pub driver : Option String
  pub port : Option String
  pub location : Option String
  pub default : Bool
  pub online : Bool
  pub status : PrinterState
  pub conditions : List PrinterCondition
  pub queued_jobs : Option ℕ
  pub language : Option String
  pub capabilities : Option PrinterCapabilities
