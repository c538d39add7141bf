-- ===== src/Gateway/FileSink.antt =====
-- `FileSinkSession`. A session is what its socket delivers until it is closed; a read past the end
-- throws, and so does a size that no memory is left for, which is the end of the session all the same.
pub mod Endpoints
pub mod Upload
pub mod Sessions
use cds_guard.Prelude.{
  ℕ, ◌+◌, ◌-◌, ◌*◌, ◌^◌, Bool, true, false, not, Option, none, some, ◌>>=◌, List, [], ◌∷◌, ◌++◌,
  Bytes, length, take, drop, leb, ltb, ◌==◌, ◌&&◌, if◌then◌else◌,
}
use cds_guard.Aria.Block.{at}
use cds_guard.GuardL2.Wire.{load16, load32, load64, htons, htonl}

abbrev pub max_tasks : ℕ
max_tasks = 16

-- The fields of `ReceivedPayload` that the session fills, the time left out.
pub record Endpoint : Type 0 where
  pub ip_ver : ℕ
  pub ip_len : ℕ
  pub ip : Bytes
  pub port : ℕ

pub record Payload : Type 0 where
  pub src : Endpoint
  pub dest : Endpoint
  pub is_file : Bool
  pub is_txt_file : Bool
  pub file_name : Bytes
  pub content : Bytes

-- How the reading of a session ends.
pub data Reading : Type 0 where
  bad_magic bad_tag failed : Reading
  complete : Payload → Reading

-- `asio::read` of `n` bytes, with what is to be done with them and the rest; none left throws.
unfoldable pub read_then : ℕ → Bytes → (Bytes → Bytes → Reading) → Reading
read_then n stream k =
    let rest = k (take n stream) (drop n stream) in if leb n (length stream) then rest else failed

unfoldable pub read_endpoint : Bytes → (Endpoint → Bytes → Reading) → Reading
read_endpoint stream k = read_then 1 stream (λ ver s1. read_then 16 s1 (λ ip s2.
    read_then 2 s2 (λ port s3.
      let ip_len = if at ver 0 == 4 then 4 else 16 in
      k
        (record {
          ip_ver = at ver 0;
          ip_len = ip_len;
          ip = take ip_len ip;
          port = htons (load16 port 0);
        })
        s3)))

abbrev pub file_tag : Bytes
file_tag = 70 ∷ 73 ∷ 76 ∷ 69 ∷ 0 ∷ []

abbrev pub text_tag : Bytes
text_tag = 84 ∷ 69 ∷ 88 ∷ 84 ∷ 0 ∷ []

unfoldable pub same_tag : Bytes → Bytes → Bool
same_tag a b =
    at a 0 == at b 0
    && (at a 1 == at b 1 && (at a 2 == at b 2 && (at a 3 == at b 3 && at a 4 == at b 4)))

-- What `rfind('.')` and `substr` leave of a name: the part from the last dot on, or nothing.
unfoldable pub extension : Bytes → Bytes
extension [] = []
extension (c ∷ cs) =
    let rest = extension cs in if leb 1 (length rest) then rest else if c == 46 then c ∷ cs else []

unfoldable pub same_bytes : Bytes → Bytes → Bool
same_bytes [] [] = true
same_bytes [] (y ∷ ys) = false
same_bytes (x ∷ xs) [] = false
same_bytes (x ∷ xs) (y ∷ ys) = x == y && same_bytes xs ys

-- The extension is ".txt".
unfoldable pub is_txt : Bytes → Bool
is_txt name = same_bytes (extension name) (46 ∷ 116 ∷ 120 ∷ 116 ∷ [])

unfoldable pub read_file : Endpoint → Endpoint → Bytes → Reading
read_file src dest stream = read_then 4 stream (λ name_len s1.
    read_then (load32 name_len 0) s1 (λ name s2. read_then 8 s2 (λ size s3.
      read_then (load64 size 0) s3 (λ content s4. complete (record {
        src = src;
        dest = dest;
        is_file = true;
        is_txt_file = is_txt name;
        file_name = name;
        content = content;
      })))))

unfoldable pub read_text : Endpoint → Endpoint → Bytes → Reading
read_text src dest stream = read_then 8 stream (λ size s1.
    read_then (load64 size 0) s1 (λ content s2. complete (record {
      src = src;
      dest = dest;
      is_file = false;
      is_txt_file = false;
      file_name = [];
      content = content;
    })))

unfoldable pub read_session : Bytes → Reading
read_session stream = read_then 4 stream (λ magic s1.
    let rest = read_endpoint s1 (λ src s2. read_endpoint s2 (λ dest s3. read_then 5 s3 (λ tag s4.
      if same_tag tag file_tag
      then read_file src dest s4
      else if same_tag tag text_tag
      then read_text src dest s4
      else bad_tag))) in
    if htonl (load32 magic 0) == 0x50524732 then rest else bad_magic)

-- `g_receive_task_list` and `g_active_connections`, which counts the session that runs.
pub record Gateway : Type 0 where
  pub receive_task_list : List Payload
  pub active_connections : ℕ

-- `--` on a `size_t`, which wraps below 0.
unfoldable pub decrement : ℕ → ℕ
decrement n = if n == 0 then 2 ^ 64 - 1 else n - 1

-- The end of `FileSinkSession`: the two early returns leave the count of connections as it is.
unfoldable pub end_session : Reading → Gateway → Gateway
end_session bad_magic g = g
end_session bad_tag g = g
end_session failed g = record g { active_connections = decrement g.active_connections }
end_session (complete p) g = record {
  receive_task_list =
      if ltb (length g.receive_task_list) max_tasks
      then g.receive_task_list ++ p ∷ []
      else g.receive_task_list;
  active_connections = decrement g.active_connections;
}

unfoldable pub file_sink_session : Bytes → Gateway → Gateway
file_sink_session stream g = end_session (read_session stream) g
