-- ===== src/Serde/Parser.antt =====
-- The byte-wise frame parser of sp/client/ups_net/serde.go. A method on `*Parser` returns the new
-- parser; the uint64 counters wrap at 2^64; the logging is left out.
pub mod Frame
pub mod Scan
pub mod Stuck
pub mod Stages
pub mod Sound
use kiv_ups.Prelude.{
  ℕ, ◌+◌, ◌-◌, ◌*◌, ◌%◌, ◌^◌, Bool, true, false, not, ◌||◌, [], ◌∷◌, ◌++◌, ltb, leb, ◌==◌,
  if◌then◌else◌, Bytes, length,
}

abbrev pub msg_code_size : ℕ
msg_code_size = 4

-- `MainPart`
pub data MainPart : Type 0 where
  magic_1 magic_2 magic_3 type code size payload endline : MainPart

-- `ParserState`
pub data ParserState : Type 0 where
  ok done invalid : ParserState

-- `MsgType`, which is a byte
abbrev pub payload_msg : ℕ
payload_msg = b'P'

abbrev pub no_payload_msg : ℕ
no_payload_msg = b'N'

pub record ParseResults : Type 0 where
  pub error : Bool
  pub parser_done : Bool
  pub code : Bytes
  pub bytes_parsed : ℕ
  pub msg_type : ℕ
  pub payload : Bytes

pub record Parser : Type 0 where
  pub payload : Bytes
  pub code : Bytes
  pub phase : MainPart
  pub msg_type : ℕ
  pub size_index : ℕ
  pub code_index : ℕ
  pub payload_len : ℕ

-- `Init` and `ResetParser` leave the same parser.
abbrev pub init : Parser
init = record {
  payload = [];
  code = [];
  phase = magic_1;
  msg_type = no_payload_msg;
  size_index = 0;
  code_index = 0;
  payload_len = 0;
}

abbrev pub reset_parser : Parser → Parser
reset_parser p = init

abbrev u64 : ℕ → ℕ
u64 n = n % 2 ^ 64

-- The case `Code`: the byte is stored, and the fourth one ends the code.
parse_code : Parser → ℕ → Parser
parse_code p char =
    let stored = record p { code = p.code ++ char ∷ []; code_index = u64 (p.code_index + 1) } in
    if leb msg_code_size stored.code_index
    then (if stored.msg_type == no_payload_msg
        then record stored { phase = endline }
        else record stored { phase = size })
    else stored

-- The case `Size`, on a digit.
parse_size : Parser → ℕ → Parser
parse_size p char =
    let moved = if leb 3 p.size_index then record p { phase = payload } else p in
    record moved {
      payload_len = u64 (u64 (p.payload_len * 10) + (char - b'0'));
      size_index = u64 (p.size_index + 1);
    }

-- The case `Payload`.
parse_payload : Parser → ℕ → Parser
parse_payload p char =
    let stored = record p { payload = p.payload ++ char ∷ [] } in
    if length stored.payload == stored.payload_len
    then record stored { phase = endline }
    else stored

-- The switch of `ParseByte`, by the parser's phase.
unfoldable pub parse_byte_in : MainPart → Parser → ℕ → Parser × ParserState
unfolding parse_code parse_size parse_payload
parse_byte_in magic_1 p char =
    if not (char == b'P') then (p, invalid) else (record p { phase = magic_2 }, ok)
parse_byte_in magic_2 p char =
    if not (char == b'K') then (p, invalid) else (record p { phase = magic_3 }, ok)
parse_byte_in magic_3 p char =
    if not (char == b'R') then (p, invalid) else (record p { phase = type }, ok)
parse_byte_in type p char =
    if char == b'N' || char == b'P'
    then (
      record p { msg_type = if char == b'N' then no_payload_msg else payload_msg; phase = code },
      ok,
    )
    else (p, invalid)
parse_byte_in code p char = (parse_code p char, ok)
parse_byte_in size p char =
    if ltb char b'0' || ltb b'9' char then (p, invalid) else (parse_size p char, ok)
parse_byte_in payload p char = (parse_payload p char, ok)
parse_byte_in endline p char = if char == b'\n' then (p, done) else (p, invalid)

abbrev pub parse_byte : Parser → ℕ → Parser × ParserState
parse_byte p char = parse_byte_in p.phase p char

-- The loop of `ParseBytes` over the bytes left, with `i` bytes read: the parser, how the loop ended
-- (`ok` at the end of the slice), and the bytes read.
unfoldable pub scan : Parser → Bytes → ℕ → Parser × ParserState × ℕ
scan p [] i = (p, ok, i)
scan p (c ∷ bytes) i =
    let (p', state) = parse_byte p c in
    elim state [
      | ok ↦ scan p' bytes (i + 1)
      | done ↦ (p', done, i + 1)
      | invalid ↦ (p', invalid, i + 1)
    ]

-- What `ParseBytes` returns for the way that its loop ended.
unfoldable pub results : Parser → ParserState → ℕ → ParseResults
results p done i = record {
  error = false;
  parser_done = true;
  code = p.code;
  bytes_parsed = i;
  msg_type = p.msg_type;
  payload = if p.msg_type == payload_msg then p.payload else [];
}
results p ended i = record {
  error = elim ended [ invalid ↦ true | _ ↦ false ];
  parser_done = false;
  code = [];
  bytes_parsed = i;
  msg_type = 0;
  payload = [];
}

unfoldable pub parse_bytes : Parser → Bytes → Parser × ParseResults
unfolding scan results
parse_bytes p bytes = let (p', ended, i) = scan p bytes 0 in (p', results p' ended i)
