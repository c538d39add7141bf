-- ===== src/Gateway/FileSink/Upload.antt =====
-- An upload as the client lays it out, through `FileSinkSession`.
use cds_guard.Prelude.{true, Bytes}
use cds_guard.Gateway.FileSink.{Endpoint, Payload, is_txt}

file_of : Endpoint → Endpoint → Bytes → Bytes → Payload
file_of src dest name content = record {
  src = src;
  dest = dest;
  is_file = true;
  is_txt_file = is_txt name;
  file_name = name;
  content = content;
}
