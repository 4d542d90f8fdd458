-- ===== src/Mqtt/StringParser.antt =====
-- acatl_mqtt/mqtt_string_parser.h: a string behind its length in two bytes.
use acatl.Base.{ℕ, ◌*◌, ◌-◌, Bytes, [], ◌∷◌, ◌++◌, some, ◌==◌, bit_or, if◌then◌else◌, true, false}
use acatl.Mqtt.Error.{Ec, string_length_violation}
use acatl.Mqtt.Types.{Tribool, indeterminate, known}

pub data Status : Type 0 where
  start read_length string_data ready : Status

pub record StringParser : Type 0 where
  pub status : Status
  pub length : ℕ
  pub ss : Bytes

-- The state after `reset`, which is also that of a new parser (whose `_length` is not read).
abbrev pub fresh : StringParser
fresh = record { status = Status.start; length = 0; ss = [] }

unfoldable pub parse : StringParser → ℕ → Ec → StringParser × Tribool × Ec
parse p byte ec = elim p.status [
  | Status.start ↦
      (record p { status = Status.read_length; length = byte * 256 }, indeterminate, ec)
  | Status.read_length ↦
      let len = bit_or p.length byte in
      if len == 0
      then (record p { status = Status.ready; length = len }, known true, ec)
      else (record p { status = Status.string_data; length = len }, indeterminate, ec)
  | Status.string_data ↦
      let len = p.length - 1 in
      let ss = p.ss ++ (byte ∷ []) in
      if len == 0
      then (record { status = Status.ready; length = len; ss = ss }, known true, ec)
      else (record { status = Status.string_data; length = len; ss = ss }, indeterminate, ec)
  | Status.ready ↦ (p, known false, some string_length_violation)
]
