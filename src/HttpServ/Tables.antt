-- ===== src/HttpServ/Tables.antt =====
-- The tables of HttpServ.cpp: the texts of the status codes and the types of the file extensions.
use http2serv.Prelude.{ℕ, List, [], ◌∷◌, codes, ◌==◌, bytes_eq, if◌then◌else◌}

-- RespText.
unfoldable pub resp_text : List (ℕ × List ℕ)
resp_text =
    (100, codes "Continue")
    ∷ (101, codes "Switching Protocols")
    ∷ (200, codes "OK")
    ∷ (201, codes "Created")
    ∷ (202, codes "Accepted")
    ∷ (203, codes "Non-Authoritative Information")
    ∷ (204, codes "No Content")
    ∷ (205, codes "Reset Content")
    ∷ (206, codes "Partial Content")
    ∷ (207, codes "Multi-Status")
    ∷ (300, codes "Multiple Choices")
    ∷ (301, codes "Moved Permanently")
    ∷ (302, codes "Moved Temporarily")
    ∷ (303, codes "See Other")
    ∷ (304, codes "Not Modified")
    ∷ (305, codes "Use Proxy")
    ∷ (307, codes "Temporary Redirect")
    ∷ (308, codes "Permanent Redirect")
    ∷ (400, codes "Bad Request")
    ∷ (401, codes "Unauthorized")
    ∷ (402, codes "Payment Required")
    ∷ (403, codes "Forbidden")
    ∷ (404, codes "Not Found")
    ∷ (405, codes "Method Not Allowed")
    ∷ (406, codes "Not Acceptable")
    ∷ (407, codes "Proxy Authentication Required")
    ∷ (408, codes "Request Timeout")
    ∷ (409, codes "Conflict")
    ∷ (410, codes "Gone")
    ∷ (411, codes "Length Required")
    ∷ (412, codes "Precondition Failed")
    ∷ (413, codes "Request Entity Too Large")
    ∷ (414, codes "Request-URI Too Long")
    ∷ (415, codes "Unsupported Media Type")
    ∷ (416, codes "Requested Range Not Satisfiable")
    ∷ (417, codes "Expectation Failed")
    ∷ (500, codes "Internal Server Error")
    ∷ (501, codes "Not Implemented")
    ∷ (502, codes "Bad Gateway")
    ∷ (503, codes "Service Unavailable")
    ∷ (504, codes "Gateway Timeout")
    ∷ (505, codes "HTTP Version Not Supported")
    ∷ []

-- The text of a status code in a response.
unfoldable pub text_of : List (ℕ × List ℕ) → ℕ → List ℕ
text_of [] code = codes "undefined"
text_of ((c, t) ∷ rest) code = if c == code then t else text_of rest code

-- MimeListe: MIMEEXTENSION and MIMESTRING.
unfoldable pub mime_list : List (List ℕ × List ℕ)
mime_list =
    (codes "txt", codes "text/plain")
    ∷ (codes "rtx", codes "text/richtext")
    ∷ (codes "css", codes "text/css")
    ∷ (codes "xml", codes "text/xml")
    ∷ (codes "htm", codes "text/html")
    ∷ (codes "html", codes "text/html")
    ∷ (codes "shtm", codes "text/html")
    ∷ (codes "shtml", codes "text/html")
    ∷ (codes "rtf", codes "text/rtf")
    ∷ (codes "js", codes "application/javascript")
    ∷ (codes "json", codes "application/json")
    ∷ (codes "tsv", codes "text/tab-separated-values")
    ∷ (codes "etx", codes "text/x-setext")
    ∷ (codes "sgm", codes "text/x-sgml")
    ∷ (codes "sgml", codes "text/x-sgml")
    ∷ (codes "xsl", codes "text/xsl")
    ∷ (codes "gif", codes "image/gif")
    ∷ (codes "jpeg", codes "image/jpeg")
    ∷ (codes "jpg", codes "image/jpeg")
    ∷ (codes "jpe", codes "image/jpeg")
    ∷ (codes "png", codes "image/png")
    ∷ (codes "svg", codes "image/svg+xml")
    ∷ (codes "tiff", codes "image/tiff")
    ∷ (codes "tif", codes "image/tiff")
    ∷ (codes "ras", codes "image/cmu-raster")
    ∷ (codes "wbmp", codes "image/vnd.wap.wbmp")
    ∷ (codes "fh4", codes "image/x-freehand")
    ∷ (codes "fh5", codes "image/x-freehand")
    ∷ (codes "fhc", codes "image/x-freehand")
    ∷ (codes "ico", codes "image/x-icon")
    ∷ (codes "ief", codes "image/ief")
    ∷ (codes "pnm", codes "image/x-portable-anymap")
    ∷ (codes "pbm", codes "image/x-portable-bitmap")
    ∷ (codes "pgm", codes "image/x-portable-graymap")
    ∷ (codes "ppm", codes "image/x-portable-pixmap")
    ∷ (codes "rgb", codes "image/x-rgb")
    ∷ (codes "xwd", codes "image/x-windowdump")
    ∷ (codes "exe", codes "application/octet-stream")
    ∷ (codes "com", codes "application/octet-stream")
    ∷ (codes "dll", codes "application/octet-stream")
    ∷ (codes "bin", codes "application/octet-stream")
    ∷ (codes "class", codes "application/octet-stream")
    ∷ (codes "iso", codes "application/octet-stream")
    ∷ (codes "zip", codes "application/zip")
    ∷ (codes "pdf", codes "application/pdf")
    ∷ (codes "ps", codes "application/postscript")
    ∷ (codes "ai", codes "application/postscript")
    ∷ (codes "eps", codes "application/postscript")
    ∷ (codes "pac", codes "application/x-ns-proxy-autoconfig")
    ∷ (codes "dwg", codes "application/acad")
    ∷ (codes "dxf", codes "application/dxf")
    ∷ (codes "mif", codes "application/mif")
    ∷ (codes "doc", codes "application/msword")
    ∷ (codes "dot", codes "application/msword")
    ∷ (codes "ppt", codes "application/mspowerpoint")
    ∷ (codes "ppz", codes "application/mspowerpoint")
    ∷ (codes "pps", codes "application/mspowerpoint")
    ∷ (codes "pot", codes "application/mspowerpoint")
    ∷ (codes "xls", codes "application/msexcel")
    ∷ (codes "xla", codes "application/msexcel")
    ∷ (codes "hlp", codes "application/mshelp")
    ∷ (codes "chm", codes "application/mshelp")
    ∷ (codes "sh", codes "application/x-sh")
    ∷ (codes "csh", codes "application/x-csh")
    ∷ (codes "latex", codes "application/x-latex")
    ∷ (codes "tar", codes "application/x-tar")
    ∷ (codes "bcpio", codes "application/x-bcpio")
    ∷ (codes "cpio", codes "application/x-cpio")
    ∷ (codes "sv4cpio", codes "application/x-sv4cpio")
    ∷ (codes "sv4crc", codes "application/x-sv4crc")
    ∷ (codes "hdf", codes "application/x-hdf")
    ∷ (codes "ustar", codes "application/x-ustar")
    ∷ (codes "shar", codes "application/x-shar")
    ∷ (codes "tcl", codes "application/x-tcl")
    ∷ (codes "dvi", codes "application/x-dvi")
    ∷ (codes "texinfo", codes "application/x-texinfo")
    ∷ (codes "texi", codes "application/x-texinfo")
    ∷ (codes "t", codes "application/x-troff")
    ∷ (codes "tr", codes "application/x-troff")
    ∷ (codes "roff", codes "application/x-troff")
    ∷ (codes "man", codes "application/x-troff-man")
    ∷ (codes "me", codes "application/x-troff-me")
    ∷ (codes "ms", codes "application/x-troff-ms")
    ∷ (codes "nc", codes "application/x-netcdf")
    ∷ (codes "cdf", codes "application/x-netcdf")
    ∷ (codes "src", codes "application/x-wais-source")
    ∷ (codes "au", codes "audio/basic")
    ∷ (codes "snd", codes "audio/basic")
    ∷ (codes "aif", codes "audio/x-aiff")
    ∷ (codes "aiff", codes "audio/x-aiff")
    ∷ (codes "aifc", codes "audio/x-aiff")
    ∷ (codes "dus", codes "audio/x-dspeeh")
    ∷ (codes "cht", codes "audio/x-dspeeh")
    ∷ (codes "midi", codes "audio/x-midi")
    ∷ (codes "mid", codes "audio/x-midi")
    ∷ (codes "ram", codes "audio/x-pn-realaudio")
    ∷ (codes "ra", codes "audio/x-pn-realaudio")
    ∷ (codes "rpm", codes "audio/x-pn-realaudio-plugin")
    ∷ (codes "mpeg", codes "video/mpeg")
    ∷ (codes "mpg", codes "video/mpeg")
    ∷ (codes "mpe", codes "video/mpeg")
    ∷ (codes "qt", codes "video/quicktime")
    ∷ (codes "mov", codes "video/quicktime")
    ∷ (codes "avi", codes "video/x-msvideo")
    ∷ (codes "movie", codes "video/x-sgi-movie")
    ∷ (codes "wrl", codes "x-world/x-vrml")
    ∷ (codes "jar", codes "application/x-jar")
    ∷ (codes "jnlp", codes "application/x-java-jnlp-file")
    ∷ (codes "jad", codes "text/vnd.sun.j2me.app-descriptor")
    ∷ (codes "wml", codes "text/vnd.wap.wml")
    ∷ (codes "wmlc", codes "application/vnd.wap.wmlc")
    ∷ (codes "wbmp", codes "image/vnd.wap.wbmp")
    ∷ []

-- The type of a file by its extension, the first that fits.
unfoldable pub mime_type : List (List ℕ × List ℕ) → List ℕ → List ℕ
mime_type [] extension = codes "application/octet-stream"
mime_type ((e, t) ∷ rest) extension = if bytes_eq extension e then t else mime_type rest extension
