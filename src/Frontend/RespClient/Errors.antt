-- ===== src/Frontend/RespClient/Errors.antt =====
-- What a client is told of the error that ends a request, and when the connection ends.
use momento_proxy.Base.{◌≡◌, refl, Option, some, [], ◌++◌, append_assoc, Bytes, codes}
use momento_proxy.Base.Exec.{err}
use momento_proxy.Error.{ProxyError, momento, io, timeout, custom, unsupported_command}
use momento_proxy.Context.{Context}
use momento_proxy.Resp.Wire.{Reply, error, encode, decode}
use momento_proxy.Resp.Wire.RoundTrip.{IsLine, decode-encode}
use momento_proxy.Resp.Utils.{momento_error_to_resp_error}
use momento_proxy.Frontend.RespClient.{Next, go_on, hang_up, error_reply, settle}

module _ {E : Type 0} (display : E → Bytes) where
  -- The text of the error reply; an error of the socket has none.
  abbrev pub error_text : ProxyError E → Bytes
  error_text (momento e) = codes "ERR backend error: " ++ display e
  error_text (io _) = []
  error_text timeout = codes "ERR backend timeout"
  error_text (custom message) = codes "ERR " ++ codes message
  error_text (unsupported_command command) = codes "ERR unsupported command: " ++ codes command

  -- What a client reads, where `s` follows on the stream.
  abbrev pub told : ProxyError E → Bytes → Option (Reply × Bytes)
  told (io _) s = decode s
  told e s = some (error (error_text e), s)

  abbrev pub reply_bytes : ProxyError E → Bytes
  reply_bytes (io _) = []
  reply_bytes e = encode (error (error_text e))

  read_reply :
      (e : ProxyError E) (s : Bytes)
      → IsLine (error_text e)
      → decode (reply_bytes e ++ s) ≡ told e s
  read_reply (io _) s l = refl
  read_reply (momento e) s l = decode-encode (error (error_text (momento e))) s l
  read_reply timeout s l = decode-encode (error (error_text timeout)) s l
  read_reply (custom m) s l = decode-encode (error (error_text (custom m))) s l
  read_reply (unsupported_command m) s l =
      decode-encode (error (error_text (unsupported_command m))) s l

module _ {E : Type 0} where
  -- Only the errors of the service leave the connection open.
  abbrev pub after_error : ProxyError E → Next
  after_error (momento _) = go_on
  after_error timeout = go_on
  after_error _ = hang_up

module _ {S E : Type 0} (display : E → Bytes) where
  pub settle_bytes :
      (e : ProxyError E) (c : Context S)
      → ((settle display (err e, c)).0.response_buf ≡ reply_bytes display e)
        × ((settle display (err e, c)).1 ≡ after_error e)
  unfolding settle error_reply momento_error_to_resp_error encode
  settle_bytes (momento e) c = (simp append_assoc, refl)
  settle_bytes (io _) c = (refl, refl)
  settle_bytes timeout c = (refl, refl)
  settle_bytes (custom message) c = (simp append_assoc, refl)
  settle_bytes (unsupported_command command) c = (simp append_assoc, refl)

  -- After an error whose text stands on one line, a client reads one RESP error with that text, and
  -- nothing that the handler wrote before it failed; after an error of the socket it reads nothing. The
  -- connection stays open after an error of the service or a timeout, and is closed after any other.
  pub settle_error :
      (e : ProxyError E) (c : Context S) (s : Bytes)
      → IsLine (error_text display e)
      → (decode ((settle display (err e, c)).0.response_buf ++ s) ≡ told display e s)
        × ((settle display (err e, c)).1 ≡ after_error e)
  settle_error e c s l = let (b, n) = settle_bytes e c in (rw b (read_reply display e s l), n)
