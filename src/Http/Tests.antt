-- ===== src/Http/Tests.antt =====
-- Runs of the parser, and its theorems at concrete requests.
use gargantua.Common.{some, [], ◌∷◌, ◌≡◌, refl, Bytes, codes, strcase_eq}
use gargantua.Http.{
  HttpRequest, parsed, is_token_char, read_token, token_loop, path_loop, parse_request_line,
  parse_content_length, skip_blanks, name_loop, parse_header_name, value_loop, trim_end,
  parse_header_value, expect_crlf,
}
use gargantua.Common.{contains, arith}
use gargantua.Http.{is_path_start, need_more, error, empty_request}
use gargantua.Http.Parse.{http_find_header}
use gargantua.Http.Framing.{IsUnambiguous, parsed-IsUnambiguous}
use gargantua.Http.HeadEnd.{IsFramed, parsed-IsFramed}
use gargantua.Http.Numbers.{parse_content_length-decimal}
use gargantua.Http.Render.{Message, render}
use gargantua.Http.RequestLine.{IsRequestLine, parsed-IsRequestLine}
use gargantua.Http.RoundTrip.{IsSendable, received, parse-render}
use gargantua.Http.Parse.{
  host_value_valid, count_known_header, headers_complete, parse_header_line, http_parse_request,
}

abbrev post_text : Bytes
post_text = codes "POST /n HTTP/1.1\r\nHost: x\r\nContent-Length: 5 \r\n\r\nhello"

abbrev post_request : HttpRequest
post_request = record {
  method = codes "POST";
  path = codes "/n";
  minor_version = 1;
  headers =
      record { name = codes "Host"; value = codes "x" }
      ∷ record { name = codes "Content-Length"; value = codes "5" }
      ∷ [];
  body = codes "hello";
  body_len = 5;
  content_length = some 5;
  header_len = 49;
  message_len = 54;
}

http_parse_request_post : http_parse_request post_text ≡ parsed post_request
unfolding http_parse_request parse_request_line parse_header_line read_token token_loop path_loop
    is_token_char parse_header_name name_loop parse_header_value value_loop trim_end skip_blanks
    expect_crlf count_known_header parse_content_length headers_complete host_value_valid strcase_eq
http_parse_request_post = refl

-- The head is not finished, and then the body.
http_parse_request_short :
    (http_parse_request (codes "POST /n HTTP/1.1\r\nHost: x\r\n") ≡ need_more empty_request)
    × (http_parse_request (codes "GET / HTTP/1.1\r\n\r\n") ≡ error)
    × (http_parse_request (codes "POST / HTTP/1.0\r\nContent-Length: -1\r\n\r\n") ≡ error)
unfolding http_parse_request parse_request_line parse_header_line read_token token_loop path_loop
    is_token_char parse_header_name name_loop parse_header_value value_loop trim_end skip_blanks
    expect_crlf count_known_header parse_content_length headers_complete host_value_valid strcase_eq
http_parse_request_short = (refl, refl, refl)

parsed-IsFramed_example : IsFramed post_text post_request
parsed-IsFramed_example = parsed-IsFramed post_text http_parse_request_post

parsed-IsUnambiguous_example : IsUnambiguous post_request
parsed-IsUnambiguous_example = parsed-IsUnambiguous post_text http_parse_request_post

parsed-IsRequestLine_example : IsRequestLine post_request
parsed-IsRequestLine_example = parsed-IsRequestLine post_text http_parse_request_post

parse_content_length-decimal_example : parse_content_length (codes "1200") ≡ some 1200
parse_content_length-decimal_example = parse_content_length-decimal (codes "1200")

abbrev post_message : Message
post_message = record {
  method = codes "POST";
  path = codes "/n";
  minor_version = 1;
  headers = post_request.headers;
  body = codes "hello";
}

post_message-IsSendable : IsSendable post_message
unfolding is_token_char contains is_path_start host_value_valid strcase_eq http_find_header
    parse_content_length
post_message-IsSendable = record {
  line = record {
    method_some = omega arith;
    method_fits = omega arith;
    method_bytes = refl;
    path_fits = omega arith;
    path_bytes = refl;
    path_starts = refl;
    version_known = omega arith;
  };
  plain = (
    record {
      name_some = omega arith;
      name_bytes = refl;
      value_bytes = refl;
      trimmed_start = refl;
      trimmed_end = refl;
    },
    (
      record {
        name_some = omega arith;
        name_bytes = refl;
        value_bytes = refl;
        trimmed_start = refl;
        trimmed_end = refl;
      },
      tt,
    ),
  );
  values = (
    record { host = λ _. refl; number = λ e. absurd (cc e) },
    (record { host = λ e. absurd (cc e); number = λ _ e. cc e }, tt),
  );
  once = omega arith;
  header_count = omega arith;
  no_encoding = refl;
  one_host = λ _. refl;
  body_declared = refl;
  body_fits = omega arith;
  head_fits = omega arith;
}

-- The message and the first bytes of the next one.
parse-render_example :
    http_parse_request (render post_message (codes "GET"))
    ≡ parsed (received post_message (codes "GET"))
parse-render_example = parse-render post_message (codes "GET") post_message-IsSendable
