-- ===== src/Http/Request.antt =====
-- The data of docs/http/HttpRequest.hpp.
use selfserv.Base.{ℕ, Bool, false, List, [], Bytes}

pub record HttpHeader : Type 0 where
  pub name : Bytes
  pub value : Bytes

pub record HttpRequest : Type 0 where
  pub method : Bytes
  pub uri : Bytes
  pub version : Bytes
  pub headers : List HttpHeader
  pub body : Bytes
  pub complete : Bool

-- HttpRequest()
abbrev pub new_request : HttpRequest
new_request = record {
  method = [];
  uri = [];
  version = [];
  headers = [];
  body = [];
  complete = false;
}

-- enum State
pub data State : Type 0 where
  request_line headers body done error : State

-- enum ChunkState
pub data ChunkState : Type 0 where
  chunk_size chunk_data chunk_crlf chunk_trailer chunk_done : ChunkState

-- The members of class HttpRequestParser.
pub record HttpRequestParser : Type 0 where
  pub state : State
  pub content_length : ℕ
  pub consumed : ℕ
  pub chunked : Bool
  pub header_end_offset : ℕ
  pub chunk_state : ChunkState
  pub current_chunk_size : ℕ
  pub current_chunk_read : ℕ

-- The constructor, and what Reset assigns.
abbrev pub new_parser : HttpRequestParser
new_parser = record {
  state = request_line;
  content_length = 0;
  consumed = 0;
  chunked = false;
  header_end_offset = 0;
  chunk_state = chunk_size;
  current_chunk_size = 0;
  current_chunk_read = 0;
}

unfoldable pub reset : HttpRequestParser → HttpRequestParser
reset p = record p {
  state = request_line;
  content_length = 0;
  consumed = 0;
  chunked = false;
  header_end_offset = 0;
  chunk_state = chunk_size;
  current_chunk_size = 0;
  current_chunk_read = 0;
}
