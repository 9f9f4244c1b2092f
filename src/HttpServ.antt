-- ===== src/HttpServ.antt =====
-- The class CHttpServ of HttpServ.h and HttpServ.cpp: the parts of DoAction that threads share, the
-- headers of responses, and the tables.
pub mod Flow
pub mod Tables
pub mod Response
pub mod Upload
pub mod Request
