-- ===== src/Client.antt =====
-- frontend/usebin.ts: the page that saves a text as an encrypted article and shows articles. This file
-- has what the functions share: the files they speak of, the page, the world around it, and calls,
-- which change the world and return or throw.
pub mod Platform
pub mod World
pub mod Upload
pub mod Urls
pub mod Location
pub mod Download
pub mod Saving
use usebin.Base.{ℕ, Option, none, some, List, [], Bytes, Str}
use usebin.Yenc.{YencError}

-- `FileInfo`
pub record FileInfo : Type 0 where
  pub key : Option Bytes
  pub hash : Option Str
  pub message_id : Option Str

-- the variables of the module, the text box, the pending timers of the window, and its location
pub record Page : Type 0 where
  pub text : Str
  pub save_timer : Option ℕ
  pub textbox : Str
  pub timers : List ℕ
  pub next_timer : ℕ
  pub pathname : Str
  pub fragment : Str

pub data Method : Type 0 where
  get post : Method

pub record Request : Type 0 where
  pub method : Method
  pub url : Str
  pub body : Bytes

pub record Response : Type 0 where
  pub status : ℕ
  pub status_text : Str
  pub body : Bytes

-- what a call can throw: the error of `postFile`, those of the yEnc codec and of `decodeText`, a
-- request that the browser cannot send, text that a library does not decode, and a type error
pub data ClientError : Type 0 where
  failed_to_post : ℕ → Str → ClientError
  yenc_error : YencError → ClientError
  code_page_error : Str → ClientError
  rejected : ClientError
  not_base64 not_hex not_a_uri : ClientError
  type_error : ClientError

abbrev pub at_origin : Str → Str → Page
at_origin pathname fragment = record {
  text = [];
  save_timer = none;
  textbox = [];
  timers = [];
  next_timer = 1;
  pathname = pathname;
  fragment = fragment;
}
