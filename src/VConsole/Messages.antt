-- ===== src/VConsole/Messages.antt =====
-- The structs of libvconsole/src/messages.h. An integer field is its bit pattern, so an int32_t is
-- a number below 2 ^ 32; a float is the pattern of its four bytes; a char array is its bytes.
use cs2remote_console.Base.{Bytes, ℕ, List}

pub record Channel : Type 0 where
  pub id : ℕ
  pub unknown1 : ℕ
  pub unknown2 : ℕ
  pub verbosity_default : ℕ
  pub verbosity_current : ℕ
  pub text_rgba_override : ℕ
  pub name : Bytes

pub record CvarInfo : Type 0 where
  pub name : Bytes
  pub unknown : ℕ
  pub flags : ℕ
  pub rangemin : ℕ
  pub rangemax : ℕ
  pub padding : ℕ

pub record Ainf : Type 0 where
  pub unknowns : List ℕ
  pub padding : ℕ

pub record Adon : Type 0 where
  pub unknown : ℕ
  pub name_length : ℕ
  pub name : Bytes

pub record Chan : Type 0 where
  pub num_channels : ℕ
  pub channels : List Channel

pub record Prnt : Type 0 where
  pub channel_id : ℕ
  pub unknown : Bytes
  pub color : ℕ
  pub message : Bytes

pub record Cvar : Type 0 where
  pub cvar : CvarInfo

pub record Cfgv : Type 0 where
  pub variable : Bytes
  pub value : Bytes
