-- ===== src/Coap/Link.antt =====
-- _encode_link of coap.c: the link of the resource in /.well-known/core, with its parameters.
use dca.Common.{
  ℕ, ◌+◌, ◌-◌, ◌%◌, ◌^◌, Option, none, some, Text, Buffer, codes, ◌++◌, ltb, ◌==◌, if◌then◌else◌,
  length, take, drop, Result, ok, fault, out_of_bounds,
}

-- the parameters of the one resource, the first entry of `_link_params`
abbrev pub link_params : Text
link_params = codes ";ct=0;rt=\"dca\""

-- memcpy to `buf` + n, where there is a buffer
abbrev copied : ℕ → Option Buffer → Option Buffer
copied n none = none
copied n (some buf) = some (take n buf ++ link_params ++ drop (n + length link_params) buf)

-- _encode_link, for the resource at position `link_pos`, behind gcoap_encode_link, which returned
-- `res` (0 for an error too, which is passed on) and wrote as many bytes; `buf` is none where only
-- the length is asked for. `_link_params` has two entries, the second one NULL. The room that is
-- left is a size_t.
unfoldable pub encode_link : ℕ → ℕ → Option Buffer → ℕ → Result (ℕ × Option Buffer)
encode_link link_pos res buf maxlen =
    if res == 0
    then ok (res, buf)
    else if link_pos == 0
    then (if ltb (length link_params) ((maxlen + 2 ^ 32 - res) % 2 ^ 32)
        then ok (res + length link_params, copied res buf)
        else ok (res, buf))
    else if link_pos == 1
    then ok (res, buf)
    else fault out_of_bounds
